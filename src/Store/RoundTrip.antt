-- ===== src/Store/RoundTrip.antt =====
-- What main/jlp/layout/store.cpp keeps, over an NVS that does as documented.
use espos_p4_cockpit.Prelude.{
  ℕ, ◌≡◌, ◌≢◌, refl, ap, ◌∙◌, ◌⊎◌, inl, inr, String, Bool, true, ◌&&◌, [], ◌∷◌, Option, none, some,
  ◌==◌, if◌then◌else◌, Bytes, length, arith, ◌=s◌, str_refl,
}
use espos_p4_cockpit.Store.{
  Err, not_found, is_ok, Nvs, key, Store, finish, store_read, store_write_atomic, store_clear,
  store_u8_set, store_flag_get, store_flag_set,
}

pub data Entry : Type 0 where
  blob : Bytes → Entry
  byte : ℕ → Entry

abbrev pub blob_of : Option Entry → Option Bytes
blob_of (some (blob b)) = some b
blob_of _ = none

abbrev pub byte_of : Option Entry → Option ℕ
byte_of (some (byte n)) = some n
byte_of _ = none

abbrev pub size_of : Option Bytes → Option ℕ
size_of none = none
size_of (some b) = some (length b)

-- The documented behaviour of NVS, over what each key of the namespace holds: opening, closing and
-- committing change no entry, a write or an erase that succeeds changes its own entry, one that fails
-- changes none.
pub record IsReliable (N : Nvs) : Type 0 where
  pub holds : String → N.State → Option Entry
  pub opening : (k : String) (w : N.State) → holds k (N.open_rw w).1 ≡ holds k w
  pub reading : (k : String) (w : N.State) → holds k (N.open_ro w).1 ≡ holds k w
  pub closing : (k : String) (w : N.State) → holds k (N.close w) ≡ holds k w
  pub committing : (k : String) (w : N.State) → holds k (N.commit w).1 ≡ holds k w
  pub blobs : (k : String) (w : N.State) → N.get_blob k w ≡ blob_of (holds k w)
  pub sizes : (k : String) (w : N.State) → N.blob_size k w ≡ size_of (blob_of (holds k w))
  pub bytes : (k : String) (w : N.State) → N.get_u8 k w ≡ byte_of (holds k w)
  pub setting_blob :
      (j k : String) (b : Bytes) (w : N.State)
      → holds k (N.set_blob j b w).1
        ≡ (if is_ok (N.set_blob j b w).0 && (j =s k) then some (blob b) else holds k w)
  pub setting_u8 :
      (j k : String) (n : ℕ) (w : N.State)
      → holds k (N.set_u8 j n w).1
        ≡ (if is_ok (N.set_u8 j n w).0 && (j =s k) then some (byte n) else holds k w)
  pub erasing :
      (j k : String) (w : N.State)
      → holds k (N.erase_key j w).1
        ≡ (if is_ok (N.erase_key j w).0 && (j =s k) then none else holds k w)
  pub missing : (k : String) (w : N.State) → (N.erase_key k w).0 ≡ not_found → holds k w ≡ none

module _ (N : Nvs) (R : IsReliable N) where
  open R use {holds}

  finish-holds : (k : String) (err : Err) (w : N.State) → holds k (finish N (err, w)).1 ≡ holds k w
  unfolding finish
  finish-holds k err w = ground (arith, R.closing k w, R.closing k (N.commit w).1, R.committing k w)

  finish-ok : (err : Err) (w : N.State) → (finish N (err, w)).0 ≡ true → is_ok err ≡ true
  unfolding finish
  finish-ok err w h = ground arith

  store_read-holds :
      (s : Store N)
      → s.ready ≡ true
      → is_ok (N.open_ro s.nvs).0 ≡ true
      → (b : Bytes) → holds key s.nvs ≡ some (blob b)
      → store_read N s ≡ (if length b == 0 then none else some b)
  unfolding store_read
  store_read-holds s r o b h =
      ground (
        arith,
        R.reading key s.nvs,
        R.blobs key (N.open_ro s.nvs).1,
        R.sizes key (N.open_ro s.nvs).1,
      )

  store_read-none : (s : Store N) → blob_of (holds key s.nvs) ≡ none → store_read N s ≡ none
  unfolding store_read
  store_read-none s h = ground (arith, R.reading key s.nvs, R.sizes key (N.open_ro s.nvs).1)

  write-holds :
      (json : Bytes) (s : Store N)
      → (store_write_atomic N json s).0 ≡ true
      → ((store_write_atomic N json s).1.ready ≡ true)
        × (holds key (store_write_atomic N json s).1.nvs ≡ some (blob json))
  unfolding store_write_atomic
  write-holds json s h =
      let w = (N.open_rw s.nvs).1 in
      let set = N.set_blob key json w in
      let done : (finish N set).0 ≡ true = ground arith in
      let worked : is_ok set.0 ≡ true = finish-ok set.0 set.1 done in
      let kept = finish-holds key set.0 set.1 in
      let stored : holds key set.1 ≡ some (blob json) =
        R.setting_blob key key json w ∙ ground (arith, str_refl key) in
      (ground arith, ground arith)

  -- A layout that was written is read back, as long as it is not empty and the partition opens.
  store_read-store_write_atomic :
      (json : Bytes) (s : Store N)
      → json ≢ []
      → (store_write_atomic N json s).0 ≡ true
      → is_ok (N.open_ro (store_write_atomic N json s).1.nvs).0 ≡ true
      → store_read N (store_write_atomic N json s).1 ≡ some json
  store_read-store_write_atomic [] s given h o = absurd (given refl)
  store_read-store_write_atomic (c ∷ cs) s given h o =
      let kept = write-holds (c ∷ cs) s h in
      store_read-holds (store_write_atomic N (c ∷ cs) s).1 kept.0 o (c ∷ cs) kept.1 ∙ ground arith

  -- What an erase leaves under the key of the layout, when store_clear() goes on to report success.
  erased-holds :
      (err : Err) (w : N.State)
      → (N.erase_key key w).0 ≡ err
      → (err ≡ not_found) ⊎ (is_ok err ≡ true)
      → holds key (N.erase_key key w).1 ≡ none
  erased-holds err w e (inl m) =
      let nothing = R.missing key w (e ∙ m) in
      let gone = R.erasing key key w in let same = str_refl key in ground arith
  erased-holds err w e (inr worked) =
      let gone = R.erasing key key w in let same = str_refl key in ground arith

  store_clear_cases :
      (s : Store N)
      → (store_clear N s).0 ≡ true
      → ((store_clear N s).1.nvs ≡ (finish N (N.erase_key key (N.open_rw s.nvs).1)).1)
        × (((N.erase_key key (N.open_rw s.nvs).1).0 ≡ not_found)
            ⊎ (is_ok (N.erase_key key (N.open_rw s.nvs).1).0 ≡ true))
  unfolding store_clear finish
  store_clear_cases s h = (ground arith, ground arith)

  -- After a clear that succeeds, also one that found nothing, there is no layout to read.
  store_read-store_clear :
      (s : Store N) → (store_clear N s).0 ≡ true → store_read N (store_clear N s).1 ≡ none
  store_read-store_clear s h =
      let w = (N.open_rw s.nvs).1 in
      let erased = N.erase_key key w in
      let (left, why) = store_clear_cases s h in
      let gone : holds key (finish N erased).1 ≡ none =
        finish-holds key erased.0 erased.1 ∙ erased-holds erased.0 w refl why in
      store_read-none (store_clear N s).1 (rw left (ap blob_of gone))

  u8-holds :
      (name k : String) (n : ℕ) (s : Store N)
      → (store_u8_set N name n s).0 ≡ true
      → holds k (store_u8_set N name n s).1.nvs
        ≡ (if name =s k then some (byte n) else holds k s.nvs)
  unfolding store_u8_set
  u8-holds name k n s h =
      let w = (N.open_rw s.nvs).1 in
      let set = N.set_u8 name n w in
      let done : (finish N set).0 ≡ true = ground arith in
      let worked : is_ok set.0 ≡ true = finish-ok set.0 set.1 done in
      let kept = finish-holds k set.0 set.1 in
      let stored = R.setting_u8 name k n w in let before = R.opening k s.nvs in ground arith

  -- A flag that was set is the flag that is read, whatever the default.
  pub store_flag_get-store_flag_set :
      (name : String) (value dflt : Bool) (s : Store N)
      → (store_flag_set N name value s).0 ≡ true
      → is_ok (N.open_ro (store_flag_set N name value s).1.nvs).0 ≡ true
      → store_flag_get N name dflt (store_flag_set N name value s).1 ≡ value
  unfolding store_flag_get store_flag_set
  store_flag_get-store_flag_set name value dflt s h o =
      let after = (store_flag_set N name value s).1.nvs in
      let stored : holds name after ≡ some (byte (if value then 1 else 0)) =
        u8-holds name name (if value then 1 else 0) s h ∙ ground (arith, str_refl name) in
      let seen = R.reading name after in let got = R.bytes name (N.open_ro after).1 in ground arith
