-- ===== src/Elf/Layout.antt =====
-- The image lies in its mapping, and so does what is written of it.
use tasm2_nextos.Prelude.{
  ℕ, ◌+◌, ◌-◌, ◌^◌, ◌≤◌, ◌<◌, ◌==◌, ltb, leb, ◌≡◌, refl, sym, ap, subst, Bool, true, false, Option,
  none, some, List, [], ◌∷◌, if◌then◌else◌, All, sub32, arith, some_eq,
}
use tasm2_nextos.Elf.Image.{
  ProgramHeader, ElfHeader, pt_load, page_start, page_end, Scan, first_scan, segment_end,
  segment_valid, extend, scan_segments, Layout, rejected, planned, place, place_segments,
  plan_scanned, plan_load, header_valid,
}

-- A segment whose last page ends below 2^32.
pub record Fits (p : ProgramHeader) : Type 0 where
  pub below : p.p_vaddr + p.p_memsz + 4095 < 2 ^ 32

-- A loaded segment that lies between the bounds of the scan, with no more bytes in the file than in
-- memory.
pub record Covers (low high : ℕ) (p : ProgramHeader) : Type 0 where
  pub above : low ≤ p.p_vaddr
  pub within : p.p_vaddr + p.p_memsz ≤ high
  pub filled : p.p_filesz ≤ p.p_memsz

-- The same, of a segment that may not be one to load.
abbrev pub IsCovered : ℕ → ℕ → ProgramHeader → Type 0
IsCovered low high p = if p.p_type == pt_load then Covers low high p else Unit

module _ (p : ProgramHeader) (s : Scan) where
  extend_bounds : ((extend p s).min_vaddr ≤ s.min_vaddr) × (s.max_vaddr ≤ (extend p s).max_vaddr)
  unfolding extend
  extend_bounds = ground arith

  extend-Covers :
      (so_size : ℕ)
      → Fits p
      → segment_valid p so_size ≡ true
      → Covers (extend p s).min_vaddr (extend p s).max_vaddr p
  unfolding extend segment_valid segment_end page_start page_end
  extend-Covers so_size f v = record {
    above = ground arith;
    within = ground (arith, f.below);
    filled = ground (arith, v);
  }

Covers-widen :
    (p : ProgramHeader) (low high low' high' : ℕ)
    → low' ≤ low
    → high ≤ high'
    → Covers low high p
    → Covers low' high' p
Covers-widen p low high low' high' l h c = record {
  above = omega (arith, l, c.above);
  within = omega (arith, h, c.within);
  filled = c.filled;
}

-- What a scan that ends has seen.
pub record Seen (ps : List ProgramHeader) (s t : Scan) : Type 0 where
  pub lower : t.min_vaddr ≤ s.min_vaddr
  pub upper : s.max_vaddr ≤ t.max_vaddr
  pub covered : All (IsCovered t.min_vaddr t.max_vaddr) ps

-- One header, after what the scan does with the others.
module _ (p : ProgramHeader) (ps : List ProgramHeader) (so_size : ℕ) (s t : Scan) (f : Fits p)
    (ih : (u : Scan) → scan_segments ps so_size u ≡ some t → Seen ps u t) where
  loaded-Seen :
      p.p_type == pt_load ≡ true
      → segment_valid p so_size ≡ true
      → scan_segments ps so_size (extend p s) ≡ some t
      → Seen (p ∷ ps) s t
  loaded-Seen is_load v e =
      let q : Seen ps (extend p s) t = ih (extend p s) e in
      record {
        lower = omega (arith, q.lower, (extend_bounds p s).0);
        upper = omega (arith, q.upper, (extend_bounds p s).1);
        covered = (
          subst (λ b. if b then Covers t.min_vaddr t.max_vaddr p else Unit) (sym is_load)
              (Covers-widen p (extend p s).min_vaddr (extend p s).max_vaddr t.min_vaddr t.max_vaddr
                q.lower q.upper (extend-Covers p s so_size f v)),
          q.covered,
        );
      }

  skipped-Seen :
      p.p_type == pt_load ≡ false → scan_segments ps so_size s ≡ some t → Seen (p ∷ ps) s t
  skipped-Seen is_other e =
      let q : Seen ps s t = ih s e in
      record {
        lower = q.lower;
        upper = q.upper;
        covered = (
          subst (λ b. if b then Covers t.min_vaddr t.max_vaddr p else Unit) (sym is_other) tt,
          q.covered,
        );
      }

  header-Seen :
      (b c : Bool)
      → p.p_type == pt_load ≡ b
      → segment_valid p so_size ≡ c
      → (if b
          then (if c then scan_segments ps so_size (extend p s) else none)
          else scan_segments ps so_size s)
        ≡ some t
      → Seen (p ∷ ps) s t
  header-Seen true true l v e = loaded-Seen l v e
  header-Seen true false l v e = absurd (ground arith)
  header-Seen false c l v e = skipped-Seen l e

scan_segments-Seen :
    (ps : List ProgramHeader) (so_size : ℕ) (s t : Scan)
    → All Fits ps
    → scan_segments ps so_size s ≡ some t
    → Seen ps s t
unfolding scan_segments
scan_segments-Seen [] so_size s t f e = record {
  lower = omega (arith, ap (λ u. u.min_vaddr) (some_eq e));
  upper = omega (arith, ap (λ u. u.max_vaddr) (some_eq e));
  covered = tt;
}
scan_segments-Seen (p ∷ ps) so_size s t f e =
    header-Seen p ps so_size s t f.0 (λ u. scan_segments-Seen ps so_size u t f.1)
      (p.p_type == pt_load) (segment_valid p so_size) refl refl e

-- What a plan says of its scan: where the image starts and ends.
pub record IsPlace (base : ℕ) (s : Scan) (l : Layout) : Type 0 where
  pub start : l.min_vaddr ≡ s.min_vaddr
  pub total : l.min_vaddr + l.load_size ≡ s.max_vaddr
  pub bias : l.virtbase ≡ sub32 base l.min_vaddr

module _ (base max_size : ℕ) (l : Layout) where
  planned_eq : (k : Layout) → planned k ≡ planned l → k ≡ l
  planned_eq k e = ap (λ q. elim q as (λ c. Layout) [ rejected n ↦ k | planned m ↦ m ]) e

  place-IsPlace :
      (s : Scan) (text d : ProgramHeader)
      → place base max_size s text d ≡ planned l
      → IsPlace base s l
  unfolding place
  place-IsPlace s text d e =
      choose (leb s.max_vaddr s.min_vaddr) (ltb max_size (s.max_vaddr - s.min_vaddr)) (base == 0)
        refl e
    where
      made : Layout
      made = record {
        min_vaddr = s.min_vaddr;
        load_size = s.max_vaddr - s.min_vaddr;
        virtbase = sub32 base s.min_vaddr;
        text_segment = text;
        data_segment = d;
      }

      choose :
          (a b c : Bool)
          → leb s.max_vaddr s.min_vaddr ≡ a
          → (if a
              then rejected 1
              else if b
              then rejected 3
              else if c
              then rejected 1
              else planned made)
            ≡ planned l
          → IsPlace base s l
      choose true b c o q = absurd (ground arith)
      choose false true c o q = absurd (ground arith)
      choose false false true o q = absurd (ground arith)
      choose false false false o q =
          subst (IsPlace base s) (planned_eq made q)
            (record { start = refl; total = ground (arith, o); bias = refl })

  -- A plan comes from a scan of all headers.
  scanned-IsPlace :
      (o : Option Scan)
      → plan_scanned base max_size o ≡ planned l
      → (t : Scan) × (o ≡ some t) × IsPlace base t l
  unfolding plan_scanned place_segments
  scanned-IsPlace none e = absurd (ground arith)
  scanned-IsPlace (some t) e = (t, refl, choose t.text_segment t.data_segment e)
    where
      choose :
          (x y : Option ProgramHeader)
          → place_segments base max_size t x y ≡ planned l
          → IsPlace base t l
      choose none y q = absurd (ground arith)
      choose (some x) none q = absurd (ground arith)
      choose (some x) (some y) q = place-IsPlace t x y q

  plan_load-IsPlace :
      (h : ElfHeader) (ps : List ProgramHeader) (so_size : ℕ)
      → plan_load h ps so_size base max_size ≡ planned l
      → (t : Scan) × (scan_segments ps so_size first_scan ≡ some t) × IsPlace base t l
  unfolding plan_load
  plan_load-IsPlace h ps so_size e = choose (header_valid h so_size) e
    where
      choose :
          (b : Bool)
          → (if b
              then plan_scanned base max_size (scan_segments ps so_size first_scan)
              else rejected 1)
            ≡ planned l
          → (t : Scan) × (scan_segments ps so_size first_scan ≡ some t) × IsPlace base t l
      choose true q = scanned-IsPlace (scan_segments ps so_size first_scan) q
      choose false q = absurd (ground arith)

  -- Every segment to load lies in the image that was planned.
  pub plan_load-Covers :
      (h : ElfHeader) (ps : List ProgramHeader) (so_size : ℕ)
      → All Fits ps
      → plan_load h ps so_size base max_size ≡ planned l
      → All (IsCovered l.min_vaddr (l.min_vaddr + l.load_size)) ps
        × (l.virtbase ≡ sub32 base l.min_vaddr)
  plan_load-Covers h ps so_size f e =
      let r = plan_load-IsPlace h ps so_size e in
      let q : IsPlace base r.0 l = r.2 in
      (
        subst (λ n. All (IsCovered n (l.min_vaddr + l.load_size)) ps) (sym q.start)
            (subst (λ n. All (IsCovered r.0.min_vaddr n) ps) (sym q.total)
              (scan_segments-Seen ps so_size first_scan r.0 f r.1).covered),
        q.bias,
      )
