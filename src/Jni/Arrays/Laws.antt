-- ===== src/Jni/Arrays/Laws.antt =====
-- What is written to a region of an array is read from it.
use tasm2_nextos.Prelude.{
  ℕ, ◌+◌, ◌≤◌, ◌==◌, ◌≡◌, ◌≢◌, refl, sym, ap, ◌∙◌, subst, ◌&&◌, Bool, true, false, Option, none,
  some, List, [], ◌∷◌, ◌++◌, length, take, drop, length-take, drop-append_length, take_all,
  take-append_le, update_self, arith, ==_iff, if◌then◌else◌,
}
use mathlib.Core.Option
use tasm2_nextos.Jni.State.{Block, no_data, cells, foreign, Handle, State, Memory, modify_handle}
use tasm2_nextos.Jni.Handles.{handle_bucket, walk, find_handle, lookup_handle}
use tasm2_nextos.Jni.Arrays.{
  contents_of, put_cells, put_block, store_cells, Access, copied, thrown, fault, region_at,
  in_region, region_valid, get_array_region, stored_region, set_array_region,
}

map_test :
    (w : Bool) (f : Handle → Handle) (o : Option Handle)
    → (if w then Option.map f o else none) ≡ Option.map f (if w then o else none)
map_test true f o = refl
map_test false f o = refl

-- A lookup of a handle whose fields were changed.
lookup_handle-modify :
    (a : ℕ) (f : Handle → Handle) (s : State)
    → lookup_handle (modify_handle a f s) a ≡ Option.map f (lookup_handle s a)
unfolding lookup_handle find_handle modify_handle
lookup_handle-modify a f s =
    ap
      (λ o.
        if a == 0 then none else if walk a (s.handle_buckets (handle_bucket a)) then o else none)
      (update_self s.heap a (Option.map f (s.heap a)))
    ∙ go (a == 0)
  where
    inner : Bool
    inner = walk a (s.handle_buckets (handle_bucket a))

    go :
        (z : Bool)
        → (if z then none else if inner then Option.map f (s.heap a) else none)
          ≡ Option.map f (if z then none else if inner then s.heap a else none)
    go true = refl
    go false = map_test inner f (s.heap a)

-- The data of an array has as many elements as its length says.
pub data IsSized : Option Handle → Type 0 where
  nothing : IsSized none
  sized :
      (item : Handle)
      → ((xs : List ℕ) → item.contents ≡ cells xs → length xs ≡ item.size)
      → IsSized (some item)

get-put_cells :
    (start count : ℕ) (input xs : List ℕ)
    → start + count ≤ length xs
    → length input ≡ count
    → take count (drop start (put_cells start count input xs)) ≡ input
unfolding put_cells
get-put_cells start count input xs l e =
    ap (λ n. take count (drop n (take start xs ++ (take count input ++ drop (start + count) xs))))
      (omega (arith, length-take start xs (omega (arith, l))))
    ∙ ap (take count)
        (drop-append_length 0 (take start xs) (take count input ++ drop (start + count) xs))
    ∙ ap (λ ys. take count (ys ++ drop (start + count) xs))
        (take_all count input (omega (arith, e)))
    ∙ take-append_le count input (drop (start + count) xs) (omega (arith, e))
    ∙ take_all count input (omega (arith, e))

in_region_le : (len start count : ℕ) → in_region len start count ≡ true → start + count ≤ len
unfolding in_region
in_region_le len start count e = ground arith

module _ (m : Memory) (element_size array start count : ℕ) (input : List ℕ)
    (exact : length input ≡ count) where
  abbrev stores : Handle → Handle
  stores item = record item { contents = put_block start count input item.contents }

  valid_stores :
      (o : Option Handle)
      → region_valid (Option.map stores o) element_size start count
        ≡ region_valid o element_size start count
  unfolding region_valid
  valid_stores none = refl
  valid_stores (some item) = refl

  valid_le :
      (item : Handle)
      → region_valid (some item) element_size start count ≡ true
      → start + count ≤ item.size
  unfolding region_valid
  valid_le item e =
      in_region_le item.size start count (middle _ (in_region item.size start count) _ e)
    where
      middle : (a b c : Bool) → (a && b && c) ≡ true → b ≡ true
      middle a b c h = ground arith

  -- What a read of the region finds behind the write.
  read_back :
      (o : Option Handle) (xs : List ℕ)
      → IsSized o
      → region_valid o element_size start count ≡ true
      → contents_of o ≡ cells xs
      → region_at start count (contents_of (Option.map stores o)) ≡ copied input
  unfolding contents_of region_at put_block
  read_back none xs v e p = cc
  read_back (some item) xs (sized _ v) e p =
      ap (λ b. region_at start count (put_block start count input b)) p ∙ in_cells
    where
      in_cells : region_at start count (put_block start count input (cells xs)) ≡ copied input
      in_cells =
          ap copied
            (get-put_cells start count input xs (omega (arith, v xs p, valid_le item e)) exact)

  module _ (out : ℕ) (given : out ≢ 0) where
    -- A read of the region, from the handle that is found.
    get_of :
        (t : State) (o : Option Handle) (r : Access)
        → lookup_handle t array ≡ o
        → region_valid o element_size start count ≡ true
        → region_at start count (contents_of o) ≡ r
        → get_array_region m element_size array start count out t ≡ (r, t)
    unfolding get_array_region
    get_of t o r e v h = let w : (out == 0) ≡ false = ground arith in rw (e, v, w, h) refl

    no_input : (if count == 0 then copied [] else fault) ≡ copied [] → input ≡ []
    no_input h = split (count == 0) refl h
      where
        empty : (xs : List ℕ) → length xs ≡ 0 → xs ≡ []
        empty [] e = refl
        empty (x ∷ xs) e = absurd (omega (arith, e))

        split :
            (b : Bool)
            → (count == 0) ≡ b
            → (if b then copied [] else fault) ≡ copied []
            → input ≡ []
        split true q h = empty input (exact ∙ (==_iff count 0).0 q)
        split false q h = cc

    -- A write of no element to an array without data.
    set_nothing :
        (s t : State) (b : Block)
        → region_valid (lookup_handle s array) element_size start count ≡ true
        → contents_of (lookup_handle s array) ≡ b
        → region_at start count b ≡ (if count == 0 then copied [] else fault)
        → ◌≡◌ {A = Access × State} ((if count == 0 then copied [] else fault), s) (copied [], t)
        → get_array_region m element_size array start count out t ≡ (copied input, t)
    set_nothing s t b v e r h =
        subst (λ u. get_array_region m element_size array start count out u ≡ (copied input, u))
          (ap (λ q. q.1) h)
          (get_of s (lookup_handle s array) (copied input) refl v (
            ap (region_at start count) e
            ∙ r
            ∙ ap (λ q. q.0) h
            ∙ ap copied (sym (no_input (ap (λ q. q.0) h)))))

    set_get :
        (s t : State) (b : Block)
        → IsSized (lookup_handle s array)
        → region_valid (lookup_handle s array) element_size start count ≡ true
        → contents_of (lookup_handle s array) ≡ b
        → stored_region m b array start count input s ≡ (copied [], t)
        → get_array_region m element_size array start count out t ≡ (copied input, t)
    unfolding stored_region store_cells region_at
    set_get s t no_data z v e h = set_nothing s t no_data v e refl h
    set_get s t (foreign a) z v e h = set_nothing s t (foreign a) v e refl h
    set_get s t (cells xs) z v e h =
        subst (λ u. get_array_region m element_size array start count out u ≡ (copied input, u))
          (ap (λ r. r.1) h)
          (get_of (modify_handle array stores s) (Option.map stores (lookup_handle s array))
            (copied input) (lookup_handle-modify array stores s)
            (valid_stores (lookup_handle s array) ∙ v) (read_back (lookup_handle s array) xs z v e))

    refused_or_stored :
        (s t : State) (b : Bool)
        → IsSized (lookup_handle s array)
        → region_valid (lookup_handle s array) element_size start count ≡ b
        → (u : State)
        → (if b
            then stored_region m (contents_of (lookup_handle s array)) array start count input s
            else (thrown, u))
          ≡ (copied [], t)
        → get_array_region m element_size array start count out t ≡ (copied input, t)
    refused_or_stored s t true z v u h =
        set_get s t (contents_of (lookup_handle s array)) z v refl h
    refused_or_stored s t false z v u h = cc (ap (λ q. q.0) h)

-- What a write to a region of an array stored, from as many elements as the call names, is what a
-- read of that region copies, and the read changes nothing. The data of the array has the array's
-- length.
pub get_array_region-set_array_region :
    (m : Memory) (element_size array start count : ℕ) (input : List ℕ) (out : ℕ) (s t : State)
    → length input ≡ count
    → out ≢ 0
    → IsSized (lookup_handle s array)
    → set_array_region m element_size array start count (some input) s ≡ (copied [], t)
    → get_array_region m element_size array start count out t ≡ (copied input, t)
unfolding set_array_region
get_array_region-set_array_region m element_size array start count input out s t exact given z h =
    refused_or_stored m element_size array start count input exact out given s t
      (region_valid (lookup_handle s array) element_size start count) z refl _ h
