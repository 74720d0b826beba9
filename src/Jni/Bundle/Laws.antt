-- ===== src/Jni/Bundle/Laws.antt =====
-- A bundle is a map from texts to typed values.
use tasm2_nextos.Prelude.{
  ℕ, ◌+◌, ◌==◌, ◌≡◌, ◌≢◌, ◌↔◌, refl, sym, ap, ◌∙◌, subst, ◌&&◌, Bool, true, false, Option, none,
  some, List, [], ◌∷◌, length, same_text, same_text-eq, same_text_refl, update_self, update_ne,
  arith, ==_iff, if◌then◌else◌,
}
use mathlib.Core.Option
use tasm2_nextos.Jni.State.{ValueKind, Entry, Handle, State, Memory, modify_handle}
use tasm2_nextos.Jni.Handles.{handle_bucket, walk, find_handle}
use tasm2_nextos.Jni.Bundle.{
  is_bundle, find_entry, entries_of, bundle_find, store_entry, change_entries, add_entry,
  entry_size, set_in, set_key, bundle_set, bundle_get,
}

same_text_iff : (a b : List ℕ) → (same_text a b ≡ true) ↔ (a ≡ b)
same_text_iff a b = (same_text-eq a b, λ e. subst (λ x. same_text a x ≡ true) e (same_text_refl a))

same_text_sym : (a b : List ℕ) → same_text a b ≡ same_text b a
same_text_sym a b = go (same_text a b) (same_text b a) refl refl
  where
    go : (x y : Bool) → same_text a b ≡ x → same_text b a ≡ y → x ≡ y
    go true true p q = refl
    go true false p q = cc (sym q ∙ (same_text_iff b a).1 (sym (same_text-eq a b p)))
    go false true p q = cc (sym p ∙ (same_text_iff a b).1 (sym (same_text-eq b a q)))
    go false false p q = refl

abbrev fresh_entry : List ℕ → ValueKind → ℕ → Entry
fresh_entry key kind value = record { key = key; kind = kind; value = value }

-- A store through the entry that was found.
find_entry-store_entry :
    (key other : List ℕ) (kind : ValueKind) (value : ℕ) (entries : List Entry) (e : Entry)
    → find_entry key entries ≡ some e
    → find_entry other (store_entry key kind value entries) ≡ (
        if same_text key other then some (fresh_entry key kind value) else find_entry other entries)
unfolding find_entry store_entry
find_entry-store_entry key other kind value [] e h = cc
find_entry-store_entry key other kind value (x ∷ entries) e h = ground (
  arith,
  same_text_iff x.key key,
  same_text_iff x.key other,
  same_text_iff key other,
  find_entry-store_entry key other kind value entries e,
)

module _ (b : ℕ) (f : List Entry → List Entry) (s : State) where
  abbrev changed : Handle → Handle
  changed item = record item { bundle_entries = f item.bundle_entries }

  map_test :
      (w : Bool) (o : Option Handle)
      → (if w then Option.map changed o else none) ≡ Option.map changed (if w then o else none)
  map_test true o = refl
  map_test false o = refl

  find_handle-change_same :
      find_handle (change_entries b f s) b ≡ Option.map changed (find_handle s b)
  unfolding find_handle change_entries modify_handle
  find_handle-change_same =
      ap (λ o. if walk b (s.handle_buckets (handle_bucket b)) then o else none)
        (update_self s.heap b (Option.map changed (s.heap b)))
      ∙ map_test (walk b (s.handle_buckets (handle_bucket b))) (s.heap b)

  find_handle-change_ne : (x : ℕ) → x ≢ b → find_handle (change_entries b f s) x ≡ find_handle s x
  unfolding find_handle change_entries modify_handle
  find_handle-change_ne x ne =
      ap (λ o. if walk x (s.handle_buckets (handle_bucket x)) then o else none)
        (update_ne s.heap b (Option.map changed (s.heap b)) x ne)

  changed_find :
      (o : Option Handle) (other : List ℕ)
      → is_bundle o ≡ true
      → bundle_find (Option.map changed o) (some other) ≡ find_entry other (f (entries_of o))
  unfolding bundle_find is_bundle entries_of
  changed_find none other e = cc
  changed_find (some item) other e = rw e refl

bundle_find_of :
    (o : Option Handle) (other : List ℕ)
    → is_bundle o ≡ true
    → bundle_find o (some other) ≡ find_entry other (entries_of o)
unfolding bundle_find
bundle_find_of o other e = rw e refl

module _ (m : Memory) (b : ℕ) (key : List ℕ) (kind : ValueKind) (value : ℕ) (x : ℕ)
    (other : List ℕ) where
  -- The entry that a lookup finds behind the store.
  abbrev after_store : State → Option Entry
  after_store s =
      if (x == b) && same_text key other
      then some (fresh_entry key kind value)
      else bundle_get s x (some other)

  changed_get :
      (f : List Entry → List Entry) (s : State)
      → is_bundle (find_handle s b) ≡ true
      → find_entry other (f (entries_of (find_handle s b))) ≡ (
          if same_text key other
          then some (fresh_entry key kind value)
          else find_entry other (entries_of (find_handle s b)))
      → bundle_get (change_entries b f s) x (some other) ≡ after_store s
  unfolding bundle_get
  changed_get f s e h = split (x == b) refl
    where
      same_place : bundle_find (find_handle (change_entries b f s) b) (some other) ≡ (
          if same_text key other
          then some (fresh_entry key kind value)
          else bundle_find (find_handle s b) (some other))
      same_place =
          ap (λ o. bundle_find o (some other)) (find_handle-change_same b f s)
          ∙ changed_find b f s (find_handle s b) other e
          ∙ h
          ∙ ap (λ r. if same_text key other then some (fresh_entry key kind value) else r)
              (sym (bundle_find_of (find_handle s b) other e))

      split :
          (t : Bool)
          → (x == b) ≡ t
          → bundle_find (find_handle (change_entries b f s) x) (some other) ≡ (
              if t && same_text key other
              then some (fresh_entry key kind value)
              else bundle_find (find_handle s x) (some other))
      split true q =
          subst
            (λ y. bundle_find (find_handle (change_entries b f s) y) (some other) ≡ (
              if same_text key other
              then some (fresh_entry key kind value)
              else bundle_find (find_handle s y) (some other)))
            (sym ((==_iff x b).0 q)) same_place
      split false q =
          ap (λ o. bundle_find o (some other))
            (find_handle-change_ne b f s x (λ i. cc (sym q ∙ (==_iff x b).1 i)))

  add_entry_get :
      (s : State)
      → is_bundle (find_handle s b) ≡ true
      → bundle_get (add_entry b (fresh_entry key kind value) s) x (some other) ≡ after_store s
  unfolding bundle_get add_entry find_handle find_entry change_entries modify_handle
  add_entry_get s e = changed_get (λ entries. fresh_entry key kind value ∷ entries) s e refl

  set_in_get :
      (o : Option Entry) (s t : State)
      → is_bundle (find_handle s b) ≡ true
      → bundle_find (find_handle s b) (some key) ≡ o
      → set_in m o b key kind value s ≡ (true, t)
      → bundle_get t x (some other) ≡ after_store s
  unfolding set_in
  set_in_get (some found) s t e q h =
      subst (λ u. bundle_get u x (some other) ≡ after_store s) (ap (λ r. r.1) h)
        (changed_get (store_entry key kind value) s e (
          find_entry-store_entry key other kind value (entries_of (find_handle s b)) found
            (sym (bundle_find_of (find_handle s b) key e) ∙ q)))
  set_in_get none s t e q h = added (m.enough s entry_size && m.enough s (length key + 1)) h
    where
      added :
          (w : Bool)
          → ◌≡◌ {A = Bool × State}
              (if w then (true, add_entry b (fresh_entry key kind value) s) else (false, s))
              (true, t)
          → bundle_get t x (some other) ≡ after_store s
      added true h =
          subst (λ u. bundle_get u x (some other) ≡ after_store s) (ap (λ r. r.1) h)
            (add_entry_get s e)
      added false h = cc (ap (λ r. r.0) h)

  set_key_get :
      (s t : State) (w : Bool)
      → is_bundle (find_handle s b) ≡ w
      → (if w
          then set_in m (bundle_find (find_handle s b) (some key)) b key kind value s
          else (false, s))
        ≡ (true, t)
      → bundle_get t x (some other) ≡ after_store s
  set_key_get s t true e h = set_in_get (bundle_find (find_handle s b) (some key)) s t e refl h
  set_key_get s t false e h = cc (ap (λ r. r.0) h)

-- A store that succeeds is what a lookup finds of the key in that bundle, and every other key, in
-- this or another bundle, has what it had.
pub bundle_get-bundle_set :
    (m : Memory) (b : ℕ) (key : List ℕ) (kind : ValueKind) (value : ℕ) (x : ℕ) (other : List ℕ)
    (s t : State)
    → bundle_set m b (some key) kind value s ≡ (true, t)
    → bundle_get t x (some other) ≡ (
        if (x == b) && same_text key other
        then some (record { key = key; kind = kind; value = value })
        else bundle_get s x (some other))
unfolding bundle_set set_key
bundle_get-bundle_set m b [] kind value x other s t h = cc (ap (λ r. r.0) h)
bundle_get-bundle_set m b (c ∷ key) kind value x other s t h =
    set_key_get m b (c ∷ key) kind value x other s t (is_bundle (find_handle s b)) refl h
