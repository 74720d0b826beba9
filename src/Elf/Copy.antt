-- ===== src/Elf/Copy.antt =====
-- What `so_load` writes lies in the mapping.
use tasm2_nextos.Prelude.{
  ℕ, zero, suc, ◌+◌, ◌-◌, ◌%◌, ◌^◌, ◌≤◌, ◌<◌, ◌==◌, ltb, leb, ◌≡◌, ◌≢◌, ◌⊎◌, inl, inr, refl, ◌∙◌,
  Bool, true, false, ◌&&◌, List, [], ◌∷◌, if◌then◌else◌, length, take, drop, All, update, update_ne,
  sub32, arith,
}
use tasm2_nextos.Elf.Image.{
  ProgramHeader, ElfHeader, pt_load, Layout, planned, plan_load, copy_bytes, copy_segments,
  load_image,
}
use tasm2_nextos.Elf.Layout.{Fits, Covers, IsCovered, plan_load-Covers}

length-take_le : (n : ℕ) (xs : List ℕ) → length (take n xs) ≤ n
length-take_le zero xs = omega arith
length-take_le (suc n) [] = omega arith
length-take_le (suc n) (x ∷ xs) = omega (arith, length-take_le n xs)

-- The copy leaves the other addresses alone.
copy_bytes_outside :
    (a : ℕ) (bytes : List ℕ) (memory : ℕ → ℕ) (b : ℕ)
    → (b < a) ⊎ (a + length bytes ≤ b)
    → copy_bytes a bytes memory b ≡ memory b
unfolding copy_bytes
copy_bytes_outside a [] memory b h = refl
copy_bytes_outside a (x ∷ bytes) memory b h =
    copy_bytes_outside (a + 1) bytes (update memory a x) b (later h)
    ∙ update_ne memory a x b (differs h)
  where
    later : (b < a) ⊎ (a + length (x ∷ bytes) ≤ b) → (b < a + 1) ⊎ (a + 1 + length bytes ≤ b)
    later (inl l) = inl (omega (arith, l))
    later (inr l) = inr (omega (arith, l))

    differs : (b < a) ⊎ (a + length (x ∷ bytes) ≤ b) → b ≢ a
    differs (inl l) e = omega (arith, l, e)
    differs (inr l) e = omega (arith, l, e)

-- The mapping at `base`, for an image whose addresses are moved by `base - low`.
module _ (file : List ℕ) (base low total virtbase b : ℕ) (mapped : base + total < 2 ^ 32)
    (low_small : low < 2 ^ 32) (bias : virtbase ≡ sub32 base low)
    (outside : (b < base) ⊎ (base + total ≤ b)) where
  -- Where a segment goes.
  destination :
      (p : ProgramHeader)
      → Covers low (low + total) p
      → (virtbase + p.p_vaddr) % 2 ^ 32 ≡ base + (p.p_vaddr - low)
  destination p c = omega (arith, bias, c.above, c.within, mapped, low_small)

  segment_outside :
      (p : ProgramHeader) (memory : ℕ → ℕ)
      → Covers low (low + total) p
      → copy_bytes
          ((virtbase + p.p_vaddr) % 2 ^ 32)
          (take p.p_filesz (drop p.p_offset file))
          memory
          b
        ≡ memory b
  segment_outside p memory c =
      copy_bytes_outside ((virtbase + p.p_vaddr) % 2 ^ 32) (take p.p_filesz (drop p.p_offset file))
        memory b (elsewhere outside)
    where
      elsewhere :
          (b < base) ⊎ (base + total ≤ b)
          → (b < (virtbase + p.p_vaddr) % 2 ^ 32)
            ⊎ ((virtbase + p.p_vaddr) % 2 ^ 32 + length (take p.p_filesz (drop p.p_offset file))
                ≤ b)
      elsewhere (inl l) = inl (omega (arith, l, destination p c))
      elsewhere (inr l) = inr (
          omega (
            arith,
            l,
            destination p c,
            c.above,
            c.within,
            c.filled,
            length-take_le p.p_filesz (drop p.p_offset file),
          ))

  copy_segments_outside :
      (ps : List ProgramHeader) (memory : ℕ → ℕ)
      → All (IsCovered low (low + total)) ps
      → copy_segments ps file virtbase memory b ≡ memory b
  unfolding copy_segments
  copy_segments_outside [] memory c = refl
  copy_segments_outside (p ∷ ps) memory c =
      copy_segments_outside ps _ c.1 ∙ choose (p.p_type == pt_load) c.0
    where
      choose :
          (t : Bool)
          → (if t then Covers low (low + total) p else Unit)
          → (if t
                then copy_bytes
                    ((virtbase + p.p_vaddr) % 2 ^ 32)
                    (take p.p_filesz (drop p.p_offset file))
                    memory
                else memory)
              b
            ≡ memory b
      choose true d = segment_outside p memory d
      choose false d = refl

-- If `so_load` accepts the headers, no segment's last page reaches 2^32, and the image fits between
-- `base` and 2^32, then clearing the mapping and copying the segments changes no byte outside the
-- mapping, whatever the headers and the file hold.
pub load_image_outside :
    (h : ElfHeader) (ps : List ProgramHeader) (file : List ℕ) (base max_size : ℕ) (l : Layout)
    (memory : ℕ → ℕ) (b : ℕ)
    → All Fits ps
    → plan_load h ps (length file) base max_size ≡ planned l
    → base + l.load_size < 2 ^ 32
    → l.min_vaddr < 2 ^ 32
    → (b < base) ⊎ (base + l.load_size ≤ b)
    → load_image ps file base l memory b ≡ memory b
unfolding load_image
load_image_outside h ps file base max_size l memory b f e mapped small outside =
    let r = plan_load-Covers base max_size l h ps (length file) f e in
    copy_segments_outside file base l.min_vaddr l.load_size l.virtbase b mapped small r.1 outside ps
      _ r.0
    ∙ cleared outside
  where
    cleared :
        (b < base) ⊎ (base + l.load_size ≤ b)
        → (if leb base b && ltb b (base + l.load_size) then 0 else memory b) ≡ memory b
    cleared (inl x) = ground (arith, x)
    cleared (inr x) = ground (arith, x)
