-- ===== src/Fetch/Wake/Search.antt =====
-- The end of the search, and what it hands to the satellite.
use espos_p4_cockpit.Prelude.{
  ℕ, zero, suc, min, ◌-◌, ◌+◌, ◌*◌, ◌≡◌, inl, inr, refl, ap, sym, ◌∙◌, String, true, false, Option,
  none, some, List, [], ◌∷◌, ◌++◌, ◌=s◌, str_iff, if◌then◌else◌, or_else, Bytes, take, length, All,
  Bool-cases, Option-cases, arith,
}
use espos_p4_cockpit.Json.{JsonLib}
use espos_p4_cockpit.Fetch.Layout.{posted_body, posted_body-some}
use espos_p4_cockpit.Fetch.Wake.{
  take_words, wait_before, Answers, Target, words_of, target_of, with_doc, with_body, with_server,
  attempt, go_on, discover,
}
use espos_p4_cockpit.Fetch.Wake.Port.{IsPort, port_of-IsPort}

-- The texts of a list that are not empty.
pub given : List (Option String) → List String
given [] = []
given (none ∷ ws) = given ws
given (some t ∷ ws) = if t =s "" then given ws else t ∷ given ws

take_words_lem : (room : ℕ) (ws : List (Option String)) → take_words room ws ≡ take room (given ws)
unfolding take_words given
take_words_lem zero [] = refl
take_words_lem zero (none ∷ ws) = take_words_lem zero ws
take_words_lem zero (some t ∷ ws) = refl
take_words_lem (suc room) [] = refl
take_words_lem (suc room) (none ∷ ws) = take_words_lem (suc room) ws
take_words_lem (suc room) (some t ∷ ws) = elim (Bool-cases (t =s "")) [
  | inl e ↦ rw e (take_words_lem (suc room) ws)
  | inr e ↦ rw e (ap (λ l. t ∷ l) (take_words_lem room ws))
]

-- The milliseconds of delay after so many failed attempts.
abbrev pub delay : ℕ → ℕ
delay failures = 10000 * min failures 11 + 60000 * (failures - 11)

module _ (J : JsonLib) (atoi : Bytes → ℕ) (utf8 : String → Bytes) where
  -- An attempt met a selected server, a whole answer with status 200 that is a document with the status
  -- "ready", and an address of the server.
  pub record IsReady (a : Answers) : Type 0 where
    pub host : String
    pub selected : a.server ≡ some host
    pub is_ok : a.response.is_ok ≡ true
    pub status : a.response.status ≡ 200
    pub is_whole : a.response.truncated ≡ false
    pub doc : J.Json
    pub parsed : J.deserialize a.response.body ≡ some doc
    pub service : J.text (J.member doc "status") ≡ some "ready"
    pub ip : Bytes
    pub resolved : a.address ≡ some ip

  -- The address of the server, the port of the document's uri, and the first eight of its words that are
  -- not empty.
  pub record Hands (a : Answers) (t : Target) (h : IsReady a) : Type 0 where
    pub to : t.ip ≡ h.ip
    pub port : IsPort atoi (utf8 (or_else (J.text (J.member h.doc "uri")) "")) t.port
    pub words :
        t.words ≡ take 8 (given (words_of J atoi utf8 (J.elements (J.member h.doc "wakeWords"))))

  target_of-Hands : (a : Answers) (h : IsReady a) → Hands a (target_of J atoi utf8 h.doc h.ip) h
  unfolding target_of
  target_of-Hands a h = record {
    to = refl;
    port = port_of-IsPort atoi (utf8 (or_else (J.text (J.member h.doc "uri")) ""));
    words = take_words_lem 8 (words_of J atoi utf8 (J.elements (J.member h.doc "wakeWords")));
  }

  attempt-IsReady :
      (a : Answers) (h : IsReady a)
      → attempt J atoi utf8 a ≡ some (target_of J atoi utf8 h.doc h.ip)
  unfolding attempt with_server with_body with_doc posted_body ◌=s◌
  attempt-IsReady a h =
      rw (h.selected, h.is_ok, h.status, h.is_whole) (rw (h.parsed, h.resolved, h.service) refl)

  blank_status : ("" =s "ready") ≡ false
  unfolding ◌=s◌
  blank_status = refl

  IsReady-with_doc :
      (a : Answers) (host : String) (doc : J.Json) (ip : Option Bytes) (t : Target)
      → a.server ≡ some host
      → (a.response.is_ok ≡ true) × (a.response.status ≡ 200) × (a.response.truncated ≡ false)
      → J.deserialize a.response.body ≡ some doc
      → a.address ≡ ip
      → with_doc J atoi utf8 ip (some doc) ≡ some t
      → IsReady a
  unfolding with_doc
  IsReady-with_doc a host doc none t server whole parsed found e = absurd (cc)
  IsReady-with_doc a host doc (some ip) t server whole parsed found e =
      elim (Bool-cases (or_else (J.text (J.member doc "status")) "" =s "ready")) [
        | inr q ↦ absurd (ground arith)
        | inl q ↦ elim (Option-cases (J.text (J.member doc "status"))) [
          | inl missing ↦
              let never : ("" =s "ready") ≡ true =
                ap (λ o. or_else o "" =s "ready") (sym missing) ∙ q in
              absurd (let blank = blank_status in cc)
          | inr (s, service) ↦ record {
            host = host;
            selected = server;
            is_ok = whole.0;
            status = whole.1;
            is_whole = whole.2;
            doc = doc;
            parsed = parsed;
            service =
                service
                ∙ ap some
                    ((str_iff s "ready").0 (ap (λ o. or_else o "" =s "ready") (sym service) ∙ q));
            ip = ip;
            resolved = found;
          }
        ]
      ]

  IsReady-attempt : (a : Answers) (t : Target) → attempt J atoi utf8 a ≡ some t → IsReady a
  unfolding attempt with_server with_body
  IsReady-attempt a t e = elim (Option-cases a.server) [
    | inl none_selected ↦ absurd (ground arith)
    | inr (host, server) ↦ elim (Option-cases (posted_body a.response)) [
      | inl refused ↦ absurd (ground arith)
      | inr (body, answered) ↦ elim (Option-cases (J.deserialize body)) [
        | inl garbled ↦ absurd (ground arith)
        | inr (doc, parsed) ↦
            let (is_ok, status, is_whole, same) = posted_body-some a.response body answered in
            IsReady-with_doc a host doc a.address t server (is_ok, status, is_whole)
              (ap J.deserialize same ∙ parsed) refl (ground arith)
      ]
    ]
  ]

  -- The attempt that ends the search: those before met no ready service, and what it met is handed over.
  -- `n` attempts were made before these.
  pub record IsOutcome (n : ℕ) (answers : List Answers) (t : Target) (w : ℕ) : Type 0 where
    pub failed : List Answers
    pub last : Answers
    pub unused : List Answers
    pub in_order : answers ≡ failed ++ last ∷ unused
    pub none_ready : All (λ b. ¬ IsReady b) failed
    pub ready : IsReady last
    pub hands : Hands last t ready
    pub delayed : w ≡ delay (n + length failed)

  delay_next : (n : ℕ) → delay n + wait_before (n + 1) ≡ delay (n + 1)
  delay_next n = ground arith

  discover_found :
      (n waited : ℕ) (a : Answers) (as' : List Answers) (h : IsReady a)
      → discover J atoi utf8 n waited (a ∷ as')
        ≡ some (target_of J atoi utf8 h.doc h.ip, waited + wait_before n)
  unfolding discover
  discover_found n waited a as' h =
      ap
        (λ o.
          go_on J atoi utf8 o (waited + wait_before n)
            (discover J atoi utf8 (n + 1) (waited + wait_before n) as'))
        (attempt-IsReady a h)

  discover_on :
      (n waited : ℕ) (a : Answers) (as' : List Answers)
      → attempt J atoi utf8 a ≡ none
      → discover J atoi utf8 n waited (a ∷ as')
        ≡ discover J atoi utf8 (n + 1) (waited + wait_before n) as'
  unfolding discover
  discover_on n waited a as' e =
      ap
        (λ o.
          go_on J atoi utf8 o (waited + wait_before n)
            (discover J atoi utf8 (n + 1) (waited + wait_before n) as'))
        e

  found-IsOutcome :
      (n waited : ℕ) (a : Answers) (as' : List Answers) (h : IsReady a)
      → waited + wait_before n ≡ delay n
      → IsOutcome n (a ∷ as') (target_of J atoi utf8 h.doc h.ip) (waited + wait_before n)
  found-IsOutcome n waited a as' h q = record {
    failed = [];
    last = a;
    unused = as';
    in_order = refl;
    none_ready = tt;
    ready = h;
    hands = target_of-Hands a h;
    delayed = rw q (ap delay (omega arith));
  }

  IsOutcome-cons :
      (n : ℕ) (b : Answers) (as' : List Answers) (t : Target) (w : ℕ)
      → attempt J atoi utf8 b ≡ none
      → IsOutcome (n + 1) as' t w
      → IsOutcome n (b ∷ as') t w
  IsOutcome-cons n b as' t w e k = record {
    failed = b ∷ k.failed;
    last = k.last;
    unused = k.unused;
    in_order = ap (λ l. b ∷ l) k.in_order;
    none_ready = ((λ h. absurd (let q = attempt-IsReady b h in cc)), k.none_ready);
    ready = k.ready;
    hands = k.hands;
    delayed = k.delayed ∙ ap delay (omega arith);
  }

  discover_from :
      (n waited : ℕ) (before : List Answers) (a : Answers) (after : List Answers)
      → IsReady a
      → waited + wait_before n ≡ delay n
      → (t : Target) × (w : ℕ) × (discover J atoi utf8 n waited (before ++ a ∷ after) ≡ some (t, w))
        × IsOutcome n (before ++ a ∷ after) t w
  discover_from n waited [] a after h q = (
    target_of J atoi utf8 h.doc h.ip,
    waited + wait_before n,
    discover_found n waited a after h,
    found-IsOutcome n waited a after h q,
  )
  discover_from n waited (b ∷ before) a after h q = elim (Option-cases (attempt J atoi utf8 b)) [
    | inl e ↦
        let (t, w, found, ends) =
          discover_from (n + 1) (waited + wait_before n) before a after h (rw q (delay_next n)) in
        (
          t,
          w,
          discover_on n waited b (before ++ a ∷ after) e ∙ found,
          IsOutcome-cons n b (before ++ a ∷ after) t w e ends,
        )
    | inr (u, e) ↦
        let k = IsReady-attempt b u e in
        (
          target_of J atoi utf8 k.doc k.ip,
          waited + wait_before n,
          discover_found n waited b (before ++ a ∷ after) k,
          found-IsOutcome n waited b (before ++ a ∷ after) k q,
        )
  ]

  -- Where one of the attempts meets a ready service, the search ends with the first that does. It hands
  -- over the address that was resolved there, the port of the document's uri, 10400 where it gives no
  -- number from 1 to 65535, and the first eight of the document's words that are not empty. Its delays, the
  -- time of the requests not counted, are ten seconds for each of the first eleven attempts that failed,
  -- and a minute for each further one.
  pub discover_ends :
      (before : List Answers) (a : Answers) (after : List Answers)
      → IsReady a
      → (t : Target) × (w : ℕ) × (discover J atoi utf8 0 0 (before ++ a ∷ after) ≡ some (t, w))
        × IsOutcome 0 (before ++ a ∷ after) t w
  discover_ends before a after h = discover_from 0 0 before a after h refl
