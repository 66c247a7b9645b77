-- ===== src/Picture/Touch.antt =====
-- The touches on the stream widget of main/jlp/widgets/widget_factory.cpp, and their packets. Places on the
-- screen count from 0; the first touch has no last place, for which the code has one off the screen.
use espos_p4_cockpit.Prelude.{
  ℕ, ◌+◌, ◌-◌, ◌*◌, ◌/◌, ◌%◌, ◌^◌, ◌<◌, ◌≡◌, refl, sym, subst, ◌∙◌, Bool, true, false, not, ◌&&◌,
  Option, none, some, List, [], ◌∷◌, ◌++◌, ◌==◌, if◌then◌else◌, Bytes, Bool-cases, inl, inr, arith,
}

abbrev pub Point : Type 0
Point = ℕ × ℕ

pub data Code : Type 0 where
  pressed pressing released press_lost : Code

abbrev pub type_of : Code → ℕ
type_of pressed = 0
type_of pressing = 1
type_of released = 2
type_of press_lost = 2

-- `StreamCtx`, the corner of the widget on the screen, and what was sent.
pub record Toucher : Type 0 where
  pub visible : Bool
  pub corner : Point
  pub last_sent : Option Point
  pub sent : List Bytes

-- `pkt`; the coordinates are 16-bit, their bytes are taken by masks and shifts.
unfoldable pub packet : ℕ → ℕ → ℕ → Bytes
packet x y type = x % 256 ∷ x / 256 ∷ y % 256 ∷ y / 256 ∷ type ∷ 0 ∷ 0 ∷ 0 ∷ []

-- stream_touch_send(), where `peer` is whether the stream has one and a socket was made.
unfoldable pub touch_send : Bool → ℕ → ℕ → ℕ → Toucher → Toucher
unfolding packet
touch_send peer x y type c = if peer then record c { sent = c.sent ++ packet x y type ∷ [] } else c

abbrev pub is_point : Point → Option Point → Bool
is_point p none = false
is_point p (some q) = p.0 == q.0 && p.1 == q.1

-- The place in the widget, as it is cast to 16 bits.
abbrev pub place : ℕ → ℕ → ℕ
place p corner = (p - corner) % 2 ^ 16

-- stream_touch_event(), with the place of the active input device.
unfoldable pub touch_event : Bool → Code → Option Point → Toucher → Toucher
touch_event peer code none c = c
touch_event peer code (some p) c =
    if not c.visible
    then c
    else if type_of code == 1 && is_point p c.last_sent
    then c
    else touch_send peer (place p.0 c.corner.0) (place p.1 c.corner.1) (type_of code)
        (record c { last_sent = some p })

unfoldable pub run : Bool → List (Code × Option Point) → Toucher → Toucher
run peer [] c = c
run peer ((code, p) ∷ es) c = run peer es (touch_event peer code p c)

-- How the server reads a packet: its place and its type.
abbrev pub read_packet : Bytes → Option (ℕ × ℕ × ℕ)
read_packet (a ∷ b ∷ c ∷ d ∷ type ∷ e ∷ f ∷ g ∷ []) = some (a + 256 * b, c + 256 * d, type)
read_packet _ = none

read_packet-packet :
    (x y type : ℕ) → x < 2 ^ 16 → y < 2 ^ 16 → read_packet (packet x y type) ≡ some (x, y, type)
unfolding packet
read_packet-packet x y type hx hy =
    let lo : x % 256 + 256 * (x / 256) ≡ x = omega arith in
    let hi : y % 256 + 256 * (y / 256) ≡ y = omega arith in rw lo (rw hi refl)

-- The place of the last packet.
abbrev pub pointer : List Bytes → Option (ℕ × ℕ × ℕ)
pointer [] = none
pointer (p ∷ []) = read_packet p
pointer (p ∷ q ∷ ps) = pointer (q ∷ ps)

pointer-snoc : (ps : List Bytes) (p : Bytes) → pointer (ps ++ p ∷ []) ≡ read_packet p
pointer-snoc [] p = refl
pointer-snoc (q ∷ []) p = refl
pointer-snoc (q ∷ r ∷ ps) p = pointer-snoc (r ∷ ps) p

-- The last place that the input device gave.
abbrev pub last_place : List (Code × Option Point) → Option Point → Option Point
last_place [] p = p
last_place ((code, none) ∷ es) p = last_place es p
last_place ((code, some q) ∷ es) p = last_place es (some q)

-- The server's pointer is at the last place, in the tile.
abbrev pub Follows : Point → Option Point → List Bytes → Type 0
Follows corner none sent = Unit
Follows corner (some p) sent =
    (type : ℕ) × (pointer sent ≡ some (place p.0 corner.0, place p.1 corner.1, type))

record Touched (corner : Point) (p : Option Point) (c : Toucher) : Type 0 where
  seen : c.visible ≡ true
  at : c.corner ≡ corner
  last : c.last_sent ≡ p
  follows : Follows corner p c.sent

is_point-some : (p : Point) (o : Option Point) → is_point p o ≡ true → o ≡ some p
is_point-some p none h = absurd (ground (arith, h))
is_point-some p (some q) h =
    let x : q.0 ≡ p.0 = ground arith in let y : q.1 ≡ p.1 = ground arith in λ i. some (x i, y i)

place_fits : (p corner : ℕ) → place p corner < 2 ^ 16
place_fits p corner = omega arith

touch_event-Touched :
    (corner : Point) (code : Code) (p q : Option Point) (c : Toucher)
    → Touched corner q c
    → Touched corner (last_place ((code, p) ∷ []) q) (touch_event true code p c)
unfolding touch_event touch_send
touch_event-Touched corner code none q c h = h
touch_event-Touched corner code (some p) q c h =
    let open_ : (not c.visible) ≡ false = ground (arith, h.seen) in
    elim (Bool-cases (type_of code == 1 && is_point p c.last_sent)) [
      | inl e ↦
          let same : c.last_sent ≡ some p = is_point-some p c.last_sent (ground (arith, e)) in
          simp (open_, e)
            (record {
              seen = h.seen;
              at = h.at;
              last = same;
              follows = subst (λ o. Follows corner o c.sent) (sym h.last ∙ same) h.follows;
            })
      | inr e ↦
          let x = place p.0 c.corner.0 in
          let y = place p.1 c.corner.1 in
          let sent' =
            pointer-snoc c.sent (packet x y (type_of code))
            ∙ read_packet-packet x y (type_of code) (place_fits p.0 c.corner.0)
                (place_fits p.1 c.corner.1) in
          simp (open_, e)
            (record {
              seen = h.seen;
              at = h.at;
              last = refl;
              follows = (
                type_of code,
                subst
                    (λ a.
                      pointer (c.sent ++ packet x y (type_of code) ∷ [])
                      ≡ some (place p.0 a.0, place p.1 a.1, type_of code))
                    h.at sent',
              );
            })
    ]

last_place-cons :
    (code : Code) (p q : Option Point) (es : List (Code × Option Point))
    → last_place ((code, p) ∷ es) q ≡ last_place es (last_place ((code, p) ∷ []) q)
last_place-cons code none q es = refl
last_place-cons code (some p) q es = refl

run-Touched :
    (corner : Point) (es : List (Code × Option Point)) (q : Option Point) (c : Toucher)
    → Touched corner q c
    → Touched corner (last_place es q) (run true es c)
unfolding run
run-Touched corner [] q c h = h
run-Touched corner ((code, p) ∷ es) q c h =
    subst (λ o. Touched corner o (run true es (touch_event true code p c)))
      (sym (last_place-cons code p q es))
      (run-Touched corner es (last_place ((code, p) ∷ []) q) (touch_event true code p c)
        (touch_event-Touched corner code p q c h))

-- While the widget is visible and the stream has a peer, the server, which reads the packets in order,
-- has its pointer where the finger was last, relative to the widget, whatever events were left out as
-- moves without a change.
pub run-Follows :
    (es : List (Code × Option Point)) (c : Toucher)
    → c.visible ≡ true
    → Follows c.corner c.last_sent c.sent
    → Follows c.corner (last_place es c.last_sent) (run true es c).sent
run-Follows es c seen h =
    (run-Touched c.corner es c.last_sent c
      (record { seen = seen; at = refl; last = refl; follows = h })).follows
