-- ===== src/Fetch/Wake/Again.antt =====
-- wake_discover_start() of main/jlp/net/wake_discover.cpp on each connect, beside the selection of the
-- server and the end of the search, which goes by the server that is selected at that moment.
use espos_p4_cockpit.Prelude.{
  ℕ, ◌≤◌, ◌≡◌, ◌≢◌, ◌↔◌, ◌⊎◌, refl, ap, ◌∙◌, Bool, true, false, Option, some, List, [], ◌∷◌, ◌++◌,
  map, codes, same_bytes, if◌then◌else◌, Bytes, inl, inr, arith,
}
use espos_p4_cockpit.Fetch.Wake.{Discovery, wake_discover_start, discovered}

-- The statics, the server that is selected, and the one whose address the satellite was given last.
pub record Listening : Type 0 where
  pub search : Discovery
  pub selected : Option (Bytes × ℕ)
  pub wake_server : Option (Bytes × ℕ)

pub data Event : Type 0 where
  selects : Bytes × ℕ → Event  -- by mDNS, or by hand
  connects : Bool → Event  -- and whether a task can be created
  ends : Event  -- the attempt of a search that runs succeeds

pub step : (ℕ → Bytes) → Event → Listening → Listening
step udec (selects server) l = record l { selected = some server }
step udec (connects spawns) l = record l {
  search = wake_discover_start udec true l.selected spawns l.search;
}
step udec ends l =
    if l.search.running
    then record l { search = discovered l.search; wake_server = l.selected }
    else l

pub run : (ℕ → Bytes) → List Event → Listening → Listening
run udec [] l = l
run udec (e ∷ es) l = run udec es (step udec e l)

abbrev pub key_of : (ℕ → Bytes) → Bytes × ℕ → Bytes
key_of udec (host, port) = host ++ (codes ":" ++ udec port)

-- At most one search runs at a time, and the flag says whether one does.
abbrev IsSingle : Discovery → Type 0
IsSingle d = (d.tasks ≤ 1) × ((d.running ≡ true) ↔ (d.tasks ≡ 1))

step-IsSingle :
    (udec : ℕ → Bytes) (e : Event) (l : Listening)
    → IsSingle l.search
    → IsSingle (step udec e l).search
unfolding step wake_discover_start discovered
step-IsSingle udec (selects server) l h = h
step-IsSingle udec (connects spawns) l h = ground arith
step-IsSingle udec ends l h = ground arith

same_bytes_refl : (xs : Bytes) → same_bytes xs xs ≡ true
same_bytes_refl [] = refl
same_bytes_refl (x ∷ xs) = ground (arith, same_bytes_refl xs)

run-append :
    (udec : ℕ → Bytes) (xs ys : List Event) (l : Listening)
    → run udec (xs ++ ys) l ≡ run udec ys (run udec xs l)
unfolding run
run-append udec [] ys l = refl
run-append udec (x ∷ xs) ys l = run-append udec xs ys (step udec x l)

-- A connect that finds a search running, or the server the same as in the last search, does nothing.
connects_idle :
    (udec : ℕ → Bytes) (server : Bytes × ℕ) (spawns : Bool) (l : Listening)
    → l.selected ≡ some server
    → (l.search.running ≡ true) ⊎ (same_bytes (key_of udec server) l.search.discovered_for ≡ true)
    → step udec (connects spawns) l ≡ l
unfolding step wake_discover_start
connects_idle udec server spawns l at why = ground arith

run_connects_idle :
    (udec : ℕ → Bytes) (server : Bytes × ℕ) (rounds : List Bool) (l : Listening)
    → l.selected ≡ some server
    → (l.search.running ≡ true) ⊎ (same_bytes (key_of udec server) l.search.discovered_for ≡ true)
    → run udec (map connects rounds) l ≡ l
unfolding run
run_connects_idle udec server [] l at why = refl
run_connects_idle udec server (b ∷ rounds) l at why =
    ap (run udec (map connects rounds)) (connects_idle udec server b l at why)
    ∙ run_connects_idle udec server rounds l at why

-- The server changes from one to another while the search for the first runs, and that search ends with
-- the other. When the first is selected again, no number of connects starts a search: the satellite
-- keeps the other server, which is no longer the selected one, and nothing runs that would change it.
pub run-asked_back :
    (udec : ℕ → Bytes) (first second : Bytes × ℕ) (between more : List Bool) (l : Listening)
    → l.search.running ≡ false
    → l.search.tasks ≡ 0
    → same_bytes (key_of udec first) l.search.discovered_for ≡ false
    → second ≢ first
    → let l' =
        run udec
          (selects first
            ∷ connects true
            ∷ selects second
            ∷ (map connects between ++ ends ∷ selects first ∷ map connects more))
          l in
      (l'.selected ≡ some first)
      × (l'.wake_server ≡ some second)
      × (l'.wake_server ≢ l'.selected)
      × (l'.search.running ≡ false)
      × (l'.search.tasks ≡ 0)
unfolding run step wake_discover_start discovered
run-asked_back udec first second between more l idle none_yet other differ =
    let searching : Listening = record {
      search = record { discovered_for = key_of udec first; running = true; tasks = 1 };
      selected = some second;
      wake_server = l.wake_server;
    } in
    let settled : Listening = record {
      search = record { discovered_for = key_of udec first; running = false; tasks = 0 };
      selected = some first;
      wake_server = some second;
    } in
    let begun : step udec (selects second) (step udec (connects true) (step udec (selects first) l))
        ≡ searching =
      ground arith in
    let tail = ends ∷ selects first ∷ map connects more in
    let reached : run udec
          (selects first ∷ connects true ∷ selects second ∷ (map connects between ++ tail)) l
        ≡ settled =
      ap (run udec (map connects between ++ tail)) begun
      ∙ run-append udec (map connects between) tail searching
      ∙ ap (run udec tail) (run_connects_idle udec second between searching refl (inl refl))
      ∙ run_connects_idle udec first more settled refl
          (inr (same_bytes_refl (key_of udec first))) in
    rw reached (refl, refl, (λ e. differ (ground arith)), refl, refl)
