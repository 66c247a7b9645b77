-- ===== src/Http/Bitmap.antt =====
-- The image formats of GET /screenshot in main/jlp/net/http_api.cpp: the 70-byte header of a bitmap, its
-- rows, and the pixels that the JPEG encoder takes. Shifts and masks are quotients and remainders.
use espos_p4_cockpit.Prelude.{
  ℕ, zero, suc, ◌+◌, ◌-◌, ◌*◌, ◌/◌, ◌%◌, ◌^◌, ◌≤◌, ◌<◌, ◌≡◌, refl, sym, subst, ap, ◌∙◌, List, [],
  ◌∷◌, ◌++◌, some, length, length-append, get_elem?, length-take, length-drop, take, drop, set,
  replicate, Bytes, arith,
}
use native.Mathlib.Nat.{mod-eq_of_lt, suc-mul, mul_comm}

abbrev pub put16 : ℕ → ℕ → Bytes → Bytes
put16 at v out = set (set out at (v % 256)) (at + 1) (v / 2 ^ 8 % 256)

abbrev pub put32 : ℕ → ℕ → Bytes → Bytes
put32 at v out =
    set (set (set (set out at (v % 256)) (at + 1) (v / 2 ^ 8 % 256)) (at + 2) (v / 2 ^ 16 % 256))
      (at + 3) (v / 2 ^ 24 % 256)

abbrev pub row_bytes : ℕ → ℕ
row_bytes w = w * 2 % 2 ^ 32

abbrev pub pixel_bytes : ℕ → ℕ → ℕ
pixel_bytes w h = row_bytes w * h % 2 ^ 32

-- The writes of bmp_header_rgb565(), in order.
unfoldable pub bmp_header_rgb565 : ℕ → ℕ → Bytes
bmp_header_rgb565 w h =
    let blank = set (set (replicate 70 0) 0 b'B') 1 b'M' in
    let sized = put32 10 70 (put32 2 ((70 + pixel_bytes w h) % 2 ^ 32) blank) in
    let shaped = put32 22 h (put32 18 w (put32 14 56 sized)) in
    let deep = put32 30 3 (put16 28 16 (put16 26 1 shaped)) in
    let dense = put32 42 2835 (put32 38 2835 (put32 34 (pixel_bytes w h) deep)) in
    put32 66 0 (put32 62 0x1F (put32 58 0x7E0 (put32 54 0xF800 dense)))

-- What a reader of the format finds at an offset: a number of 32 bits, the lowest byte first.
abbrev pub get32 : ℕ → Bytes → ℕ
get32 at out = elim (drop at out) [
  | a ∷ b ∷ c ∷ d ∷ rest ↦ a + b * 2 ^ 8 + c * 2 ^ 16 + d * 2 ^ 24
  | _ ↦ 0
]

-- The loop over the rows, `y` of them still to send, the last first.
unfoldable pub rows_up : ℕ → ℕ → Bytes → List Bytes
rows_up row zero pixels = []
rows_up row (suc y) pixels = take row (drop (y * row) pixels) ∷ rows_up row y pixels

-- The chunks of the answer for `fmt=bmp`.
unfoldable pub bmp_chunks : ℕ → ℕ → Bytes → List Bytes
unfolding bmp_header_rgb565 rows_up
bmp_chunks w h pixels = bmp_header_rgb565 w h ∷ rows_up (row_bytes w) h pixels

abbrev pub concat : List Bytes → Bytes
concat [] = []
concat (c ∷ cs) = c ++ concat cs

length-header : (w h : ℕ) → length (bmp_header_rgb565 w h) ≡ 70
unfolding bmp_header_rgb565
length-header w h = refl

-- A number of 32 bits is the sum of its four bytes.
bytes_of :
    (v : ℕ)
    → v < 2 ^ 32
    → v % 256 + v / 2 ^ 8 % 256 * 2 ^ 8 + v / 2 ^ 16 % 256 * 2 ^ 16 + v / 2 ^ 24 % 256 * 2 ^ 24 ≡ v
bytes_of v h = omega arith

pixel_bytes_fit : (w h : ℕ) → w * 2 < 2 ^ 32 → 70 + w * 2 * h < 2 ^ 32 → pixel_bytes w h ≡ w * 2 * h
pixel_bytes_fit w h k m = rw (mod-eq_of_lt k) (mod-eq_of_lt (omega arith))

-- The header that is sent reads back: a size of 32 bits and a picture whose bytes fit 32 bits are found
-- at the offsets where a reader of bitmaps looks for the file's size, the start of the pixels, the
-- width, the height and the bytes of the picture.
pub bmp_header_rgb565_lem :
    (w h : ℕ)
    → h < 2 ^ 32
    → w * 2 < 2 ^ 32
    → 70 + w * 2 * h < 2 ^ 32
    → let out = bmp_header_rgb565 w h in
      (get32 2 out ≡ 70 + w * 2 * h)
      × (get32 10 out ≡ 70)
      × (get32 18 out ≡ w)
      × (get32 22 out ≡ h)
      × (get32 34 out ≡ w * 2 * h)
unfolding bmp_header_rgb565
bmp_header_rgb565_lem w h hh hw hs =
    let fits = pixel_bytes_fit w h hw hs in
    rw fits (
      rw (mod-eq_of_lt hs) (bytes_of (70 + w * 2 * h) hs),
      refl,
      bytes_of w (omega arith),
      bytes_of h hh,
      bytes_of (w * 2 * h) (omega arith),
    )

-- Row `y` of the picture, counted from the top.
abbrev pub row_of : ℕ → ℕ → Bytes → Bytes
row_of row y pixels = take row (drop (y * row) pixels)

-- The rows go out bottom up, each once: the row that is sent in place `i` is row `h - 1 - i`.
rows_up_lem :
    (row h i : ℕ) (pixels : Bytes)
    → i < h
    → get_elem? (rows_up row h pixels) i ≡ some (row_of row (h - 1 - i) pixels)
unfolding rows_up
rows_up_lem row zero i pixels k = absurd (ground arith)
rows_up_lem row (suc h) zero pixels k = ap (λ y. some (row_of row y pixels)) (omega arith)
rows_up_lem row (suc h) (suc i) pixels k =
    rows_up_lem row h i pixels (omega arith) ∙ ap (λ y. some (row_of row y pixels)) (omega arith)

length-rows_up :
    (row h : ℕ) (pixels : Bytes)
    → h * row ≤ length pixels
    → length (concat (rows_up row h pixels)) ≡ h * row
unfolding rows_up
length-rows_up row zero pixels k = omega arith
length-rows_up row (suc h) pixels k =
    let below : h * row + row ≤ length pixels = omega (arith, rw suc-mul at k) in
    rw suc-mul (
      omega (
        arith,
        length-append (row_of row h pixels) (concat (rows_up row h pixels)),
        length-take row (drop (h * row) pixels) (omega (arith, length-drop (h * row) pixels)),
        length-rows_up row h pixels (omega (arith, below)),
      ))

-- For a screen whose bitmap fits 32 bits, and its pixels: what is sent is as long as the header says,
-- the header gives the screen's width and height and the start of the pixels, and the rows follow
-- from the last to the first.
bmp_chunks_lem :
    (w h : ℕ) (pixels : Bytes)
    → h < 2 ^ 32
    → w * 2 < 2 ^ 32
    → 70 + w * 2 * h < 2 ^ 32
    → length pixels ≡ w * 2 * h
    → let out = concat (bmp_chunks w h pixels) in
      (get32 2 out ≡ length out)
      × (get32 18 out ≡ w)
      × (get32 22 out ≡ h)
      × (get32 10 out ≡ 70)
      × ((i : ℕ)
          → i < h
          → get_elem? (bmp_chunks w h pixels) (suc i) ≡ some (row_of (w * 2) (h - 1 - i) pixels))
unfolding bmp_chunks bmp_header_rgb565
bmp_chunks_lem w h pixels hh hw hs e =
    let (size, start, wide, high, bytes) = bmp_header_rgb565_lem w h hh hw hs in
    let row : row_bytes w ≡ w * 2 = mod-eq_of_lt hw in
    let sent =
      length-rows_up (w * 2) h pixels (omega (arith, e, mul_comm h (w * 2))) ∙ mul_comm h (w * 2) in
    let whole : length (concat (bmp_chunks w h pixels)) ≡ 70 + w * 2 * h =
      omega (arith, subst (λ k. length (concat (rows_up k h pixels)) ≡ w * 2 * h) (sym row) sent) in
    (
      size ∙ sym whole,
      wide,
      high,
      start,
      λ i k.
          subst (λ r. get_elem? (rows_up r h pixels) i ≡ some (row_of (w * 2) (h - 1 - i) pixels))
            (sym row) (rows_up_lem (w * 2) h i pixels k),
    )

-- One pixel: R in the top 5 bits, G in the next 6, B in the last 5.
unfoldable pub expand_pixel : ℕ → ℕ → ℕ × ℕ × ℕ
expand_pixel low high =
    let v = low + high * 2 ^ 8 in
    let r5 = v / 2 ^ 11 % 32 in
    let g6 = v / 2 ^ 5 % 64 in
    let b5 = v % 32 in ((r5 * 8 + r5 / 4) % 256, (g6 * 4 + g6 / 16) % 256, (b5 * 8 + b5 / 4) % 256)

-- The loop over the pixels.
unfoldable pub to_rgb888 : Bytes → Bytes
unfolding expand_pixel
to_rgb888 (low ∷ high ∷ rest) = let (r, g, b) = expand_pixel low high in r ∷ g ∷ b ∷ to_rgb888 rest
to_rgb888 _ = []

five_bits : (x : ℕ) → x < 32 → (x * 8 + x / 4) % 256 / 8 ≡ x
five_bits x h = omega arith

six_bits : (x : ℕ) → x < 64 → (x * 4 + x / 16) % 256 / 4 ≡ x
six_bits x h = omega arith

three_fields : (v : ℕ) → v < 2 ^ 16 → v / 2 ^ 11 % 32 * 2 ^ 11 + v / 2 ^ 5 % 64 * 2 ^ 5 + v % 32 ≡ v
three_fields v h = omega arith

-- A pixel of two bytes loses nothing in the conversion: the top bits of its three bytes give it back.
pub expand_pixel_lem :
    (low high : ℕ)
    → low < 256
    → high < 256
    → let (r, g, b) = expand_pixel low high in
      (r / 8 * 2 ^ 11 + g / 4 * 2 ^ 5 + b / 8 ≡ low + high * 2 ^ 8)
      × (r < 256)
      × (g < 256)
      × (b < 256)
unfolding expand_pixel
expand_pixel_lem low high l h =
    let v = low + high * 2 ^ 8 in
    (
      rw
          (
            five_bits (v / 2 ^ 11 % 32) (omega arith),
            six_bits (v / 2 ^ 5 % 64) (omega arith),
            five_bits (v % 32) (omega arith),
          )
          (three_fields v (omega arith)),
      omega arith,
      omega arith,
      omega arith,
    )
