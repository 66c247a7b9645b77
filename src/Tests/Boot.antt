-- ===== src/Tests/Boot.antt =====
-- Runs of the theorems on the timers, the boot, and what the panel asks the server for.
use espos_p4_cockpit.Prelude.{
  ℕ, ◌^◌, ◌<◌, ◌≡◌, ◌≢◌, refl, true, false, ◌=s◌, [], ◌∷◌, ◌++◌, map, none, some, if◌then◌else◌,
  All, codes, arith, ap, Bytes, length,
}
use espos_p4_cockpit.Prelude.Dict.{lookup}
use espos_p4_cockpit.Json.{JsonLib}
use espos_p4_cockpit.Layout.{float, validate}
use espos_p4_cockpit.Store.{Store, uninit, store_read, store_clear}
use espos_p4_cockpit.Store.RoundTrip.{blob}
use espos_p4_cockpit.Swap.{boot_default, apply}
use espos_p4_cockpit.Ui.Timers.{Timer, Timers, is_live, make_timer, makes, cancels, calls}
use espos_p4_cockpit.Ui.Handles.{make_timer_lem}
use espos_p4_cockpit.Ui.Firing.{find, calls-find}
use espos_p4_cockpit.Status.{StatusOverlay}
use espos_p4_cockpit.App
use espos_p4_cockpit.App.{stream_connected, stream_disconnected, token_approved}
use espos_p4_cockpit.App.Link.{unheard, last_heard, Agrees, fetches, booted, run-booted}
use espos_p4_cockpit.App.Boot.{boot_layout, boot_layout_refused}
use espos_p4_cockpit.Fetch.{Numbers, real, whole, seed_all}
use espos_p4_cockpit.Fetch.Seed.{Fits, Shows, held, seed_all-Shows}
use espos_p4_cockpit.Fetch.Wake.{Answers, Target, discover}
use espos_p4_cockpit.Fetch.Wake.Search.{IsReady, IsOutcome, discover_ends}
use espos_p4_cockpit.Fetch.Wake.Again
use espos_p4_cockpit.Fetch.Wake.Again.{Listening, selects, connects, ends, run-asked_back}
use espos_p4_cockpit.Subjects.{Registry}
use espos_p4_cockpit.Tests.Sample.{json, object, field, closed, str, array, item, nothing_more}
use espos_p4_cockpit.Tests.Memory.{memory}
use espos_p4_cockpit.Tests.Layouts.{counter, fresh}
use espos_p4_cockpit.Tests.Panel.{outside}

-- One timer, and a counter that is about to wrap.
abbrev poll : Timer
poll = record { handle = 1; once = false; fn = 7 }

abbrev wrapping : Timers
wrapping = record { s_next_handle = 4294967295; s_timers = poll ∷ [] }

make_timer_lem_example :
    (h : ℕ) × (next : ℕ) × (make_timer true 5 wrapping ≡ (
      some h,
      record {
        s_next_handle = next;
        s_timers = record { handle = h; once = true; fn = 5 } ∷ poll ∷ [];
      },
    ))
    × (h ≢ 0)
    × (is_live h (poll ∷ []) ≡ false)
    × (next < 2 ^ 32)
make_timer_lem_example = make_timer_lem true 5 wrapping (omega arith) (omega arith)

calls-find_example :
    find 1 (calls (makes true 5 ∷ cancels 4294967295 ∷ makes false 6 ∷ []) wrapping).s_timers
    ≡ some poll
calls-find_example =
    calls-find (makes true 5 ∷ cancels 4294967295 ∷ makes false 6 ∷ []) wrapping 1 poll
      (record { next = omega arith; room = omega arith; unique = (omega arith, refl, tt) })
      (tt, (omega arith, (tt, tt))) refl

abbrev dark : StatusOverlay
dark = record {
  made = false;
  lbl_host = [];
  lbl_wifi = [];
  lbl_sk = [];
  lbl_n2k = [];
  lbl_sys = [];
  sk_server = [];
  lost_hidden = true;
  lost_text = [];
  visible = true;
  strip_hidden = true;
  content_y = 0;
  content_h = 0;
}

run-booted_example :
    let a =
      App.run
        (λ n. [])
        (stream_connected none ("depth" ∷ []) ∷ token_approved ∷ stream_disconnected ∷ [])
        (booted 720 false dark) in
    Agrees
      (last_heard
        (stream_connected none ("depth" ∷ []) ∷ token_approved ∷ stream_disconnected ∷ [])
        unheard)
      a
    × (fetches a.started ≡ 1)
run-booted_example =
    run-booted (λ n. []) 720 false dark
      (stream_connected none ("depth" ∷ []) ∷ token_approved ∷ stream_disconnected ∷ [])

-- A store with a text that is no layout.
abbrev filled : Store memory
filled = record { ready = true; boot_report = uninit; nvs = ("layout", blob (codes "{}")) ∷ [] }

boot_layout_refused_example :
    (x : ℕ) × (boot_layout json memory ℕ codes
        (λ bs. "{}")
        counter
        5
        "{}"
        (record (fresh json) { store = filled })
      ≡ apply json memory ℕ codes counter 5 "{}" boot_default
          (record (fresh json) { outside = x; store = (store_clear memory filled).1 }))
unfolding apply store_read lookup validate ◌=s◌
boot_layout_refused_example =
    boot_layout_refused json memory ℕ codes (λ bs. "{}") counter 5 "{}"
      (record (fresh json) { store = filled }) (codes "{}") refl refl

-- Every number of a document is a natural one, and no truth value is read.
abbrev pub numbers : Numbers json
numbers = record {
  Real = ℕ;
  Whole = ℕ;
  as_bool = λ v. none;
  as_int = json.number;
  as_float = λ v. none;
  of_bool = λ b. if b then 1 else 0;
  of_whole = λ n. n;
  to_whole = λ n. n;
}

abbrev depth_bound : Registry
depth_bound = ("depth", record { kind = float; subject = 4; sub_handle = 9 }) ∷ []

seed_all-Shows_example :
    Shows json numbers outside float (whole 12) (
      held json numbers outside 4 (
        seed_all json numbers outside depth_bound
          (("depth", real 3) ∷ ("depth", whole 12) ∷ ("wind", real 3) ∷ [])))
    × All (Fits json numbers outside depth_bound) (
        seed_all json numbers outside depth_bound
          (("depth", real 3) ∷ ("depth", whole 12) ∷ ("wind", real 3) ∷ []))
unfolding lookup ◌=s◌
seed_all-Shows_example =
    seed_all-Shows json numbers outside depth_bound "depth" (whole 12)
      (record { kind = float; subject = 4; sub_handle = 9 }) (("depth", real 3) ∷ [])
      (("wind", real 3) ∷ []) refl ((λ slot e. absurd (cc)), tt)

abbrev silent : Answers
silent = record {
  server = none;
  response = record { is_ok = false; status = 0; truncated = false; body = "" };
  address = none;
}

abbrev answering : Answers
answering = record {
  server = some "boat";
  response = record { is_ok = true; status = 200; truncated = false; body = "{}" };
  address = some (codes "10.0.0.1");
}

-- The parser reads every text as the status "ready" with two words, one of them empty.
abbrev worded : JsonLib
worded = record json {
  deserialize = λ s. some (
      object (
        field "status" (str "ready")
          (field "wakeWords" (array (item (str "") (item (str "ahoy") nothing_more))) closed)));
}

answering-IsReady : IsReady worded (λ bs. 0) codes answering
unfolding ◌=s◌
answering-IsReady = record {
  host = "boat";
  selected = refl;
  is_ok = refl;
  status = refl;
  is_whole = refl;
  doc = object (
      field "status" (str "ready")
        (field "wakeWords" (array (item (str "") (item (str "ahoy") nothing_more))) closed));
  parsed = refl;
  service = refl;
  ip = codes "10.0.0.1";
  resolved = refl;
}

discover_ends_example :
    (t : Target) × (w : ℕ) × (discover worded (λ bs. 0) codes 0 0 (silent ∷ answering ∷ [])
      ≡ some (t, w))
    × IsOutcome worded (λ bs. 0) codes 0 (silent ∷ answering ∷ []) t w
discover_ends_example =
    discover_ends worded (λ bs. 0) codes (silent ∷ []) answering [] answering-IsReady

abbrev resting : Listening
resting = record {
  search = record { discovered_for = []; running = false; tasks = 0 };
  selected = none;
  wake_server = none;
}

run-asked_back_example :
    let l' =
      Again.run
        (λ n. [])
        (selects (codes "a", 1)
          ∷ connects true
          ∷ selects (codes "bb", 1)
          ∷ (map connects (true ∷ []) ++ ends ∷ selects (codes "a", 1) ∷ map connects (true ∷ [])))
        resting in
    (l'.selected ≡ some (codes "a", 1))
    × (l'.wake_server ≡ some (codes "bb", 1))
    × (l'.wake_server ≢ l'.selected)
    × (l'.search.running ≡ false)
    × (l'.search.tasks ≡ 0)
run-asked_back_example =
    run-asked_back (λ n. []) (codes "a", 1) (codes "bb", 1) (true ∷ []) (true ∷ []) resting refl
      refl refl
      (λ e. let long : 2 ≡ 1 = ap (λ (k : Bytes × ℕ). length k.0) e in absurd (omega (arith, long)))
