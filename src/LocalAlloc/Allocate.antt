-- ===== src/LocalAlloc/Allocate.antt =====
-- `allocate` of local_alloc.rs keeps the balance of free and held addresses.
use Prim.Native.Nat.{◌∣◌}
use native.Mathlib.Nat.{dvd_trans, dvd-add, dvd-sub}
use io.Prelude.{
  ℕ, ◌+◌, ◌-◌, ◌≤◌, ◌≡◌, refl, List, [], ◌∷◌, ◌++◌, Option, none, some, ltb, ◌==◌, false, ◌||◌,
  arith, Bool-cases, Option-cases, inl, inr, All, All-append, total, total-append, length-append,
  Outcome, ok, panic, ◌>>=◌,
}
use io.LocalAlloc.Pages.{Block, Libc, Reply, done, failed, call_alloc, two_mb}
use io.LocalAlloc.{FreeRange, Layout, State, scan, not_null, add_page, allocate}
use io.LocalAlloc.Ranges.{hits, cover}
use io.LocalAlloc.Units.{UnitLayout, UnitRange}
use io.LocalAlloc.Supply.{Documented, Supplies, Answers, call_alloc-Answers}
use io.LocalAlloc.Balance.{hits_block, hits_page, Sound, Apart, Sound-Apart, Scanned, scan-Scanned}

-- What is documented of new memory: a page that `libc` supplies overlaps no page of the state.
abbrev pub FreshPages : Libc → State → Type 0
FreshPages libc s =
    (size : ℕ) (page : Block)
    → call_alloc s.alloc libc size ≡ ok (done page)
    → (a : ℕ) → hits_block a page + total (hits_page a) s.pages ≤ 1

module _ (u : ℕ) (layout : Layout) (l : UnitLayout u layout) (s : State) (held : List Block) where
  -- What `allocate` leaves: the state as it was beside an `AllocError`, or a block of the size asked
  -- for, at a multiple of the unit, which is held from now on and overlaps no other.
  abbrev pub After : State → Option Block → Type 0
  After s' none = s' ≡ s
  After s' (some b) = Sound u s' (b ∷ held) × (b.len ≡ layout.size) × (u ∣ b.ptr) × Apart b held s'

  -- A block of some bytes that is cut out of the free ranges is not at address 0.
  Scanned-not_null :
      (b : Block) (lists' : List (List FreeRange))
      → (layout.size == 0) ≡ false
      → Sound u s held
      → Scanned u layout l s.free_list b lists'
      → not_null b ≡ ok b
  Scanned-not_null b lists' some_bytes v c = elim (Bool-cases (b.ptr == 0)) [
    | inr e ↦ rw e refl
    | inl e ↦ absurd (ground (arith, e, some_bytes, c.len, c.parts 0, v.balance 0, v.no_null))
  ]

  After-Sound :
      (s' : State) (b : Block)
      → Sound u s' (b ∷ held)
      → b.len ≡ layout.size
      → u ∣ b.ptr
      → After s' (some b)
  After-Sound s' b v len ptr_unit = (v, len, ptr_unit, Sound-Apart u s' b held v)

  Sound-Scanned :
      (b : Block) (lists' : List (List FreeRange))
      → Sound u s held
      → Scanned u layout l s.free_list b lists'
      → After (record s { free_list = lists' }) (some b)
  Sound-Scanned b lists' v c =
      After-Sound (record s { free_list = lists' }) b
        (record {
          same_length = omega (arith, v.same_length, c.same_length);
          balance = λ a. omega (arith, v.balance a, c.parts a);
          once = v.once;
          no_null = v.no_null;
          units = c.units;
        })
        c.len c.ptr_unit

  Sound-new_page :
      (page : Block)
      → u ∣ two_mb
      → Sound u s held
      → Supplies layout.size page
      → ((a : ℕ) → hits_block a page + total (hits_page a) s.pages ≤ 1)
      → (s' : State) × (o : Option Block) × (add_page s layout (done page) ≡ ok (s', o))
        × After s' o
  unfolding add_page
  Sound-new_page page d v p fresh_page =
      let fresh : FreeRange = record {
        start = page.ptr + layout.size;
        len = page.len - layout.size;
      } in
      let ptr_unit : u ∣ page.ptr = dvd_trans u d p.ptr_unit in
      (
        record s {
          pages = s.pages ++ record { ptr = page.ptr; size = page.len } ∷ [];
          free_list = s.free_list ++ (fresh ∷ []) ∷ [];
        },
        some (record { ptr = page.ptr; len = layout.size }),
        ground (arith, p.enough),
        After-Sound _ (record { ptr = page.ptr; len = layout.size })
            (record {
              same_length = omega (
                arith,
                v.same_length,
                length-append s.pages (record { ptr = page.ptr; size = page.len } ∷ []),
                length-append s.free_list ((fresh ∷ []) ∷ []),
              );
              balance = λ a. omega (
                arith,
                v.balance a,
                total-append (cover a) s.free_list ((fresh ∷ []) ∷ []),
                total-append (hits_page a) s.pages
                    (record { ptr = page.ptr; size = page.len } ∷ []),
                parted a,
              );
              once = λ a. omega (
                arith,
                fresh_page a,
                total-append (hits_page a) s.pages
                    (record { ptr = page.ptr; size = page.len } ∷ []),
              );
              no_null = omega (
                arith,
                v.no_null,
                total-append (hits_page 0) s.pages
                    (record { ptr = page.ptr; size = page.len } ∷ []),
                not_there,
              );
              units = All-append (All (UnitRange u)) s.free_list ((fresh ∷ []) ∷ []) v.units (
                (
                  record {
                    start_unit = dvd-add u ptr_unit l.size_unit;
                    len_unit = dvd-sub u (dvd_trans u d p.len_unit) l.size_unit;
                    fits = omega (arith, p.bounded);
                  },
                  tt,
                ),
                tt,
              );
            })
            refl ptr_unit,
      )
    where
      parted :
          (a : ℕ)
          → hits a page.ptr layout.size + hits a (page.ptr + layout.size) (page.len - layout.size)
            ≡ hits a page.ptr page.len
      parted a = ground (arith, p.enough)

      not_there : hits 0 page.ptr page.len ≡ 0
      not_there = ground (arith, p.not_null)

  -- Where sizes are multiples of a unit, alignments divide it, the unit divides 2 MB, and libc behaves as
  -- documented and supplies no page that overlaps one of the state, `allocate` comes to no panic on a
  -- sound state, and what it leaves is sound: an error changes nothing, and a block takes exactly its own
  -- addresses from the free ones, or from a new page, and overlaps no other held block and no free range.
  pub allocate_lem :
      (libc : Libc)
      → Documented libc
      → FreshPages libc s
      → u ∣ two_mb
      → Sound u s held
      → (s' : State) × (o : Option Block) × (allocate libc layout s ≡ ok (s', o)) × After s' o
  unfolding allocate
  allocate_lem libc doc fresh_pages d v =
      elim (Bool-cases ((layout.size == 0) || ltb two_mb layout.align)) [
        | inl e ↦ (s, none, rw e refl, refl)
        | inr e ↦ elim (Option-cases (scan layout s.free_list)) [
          | inl miss ↦ rw e (
              rw (miss, allocate)
                (asked (call_alloc s.alloc libc layout.size) refl
                  (call_alloc-Answers libc layout.size doc l.size_bound s.alloc)))
          | inr ((b, lists'), hit) ↦ (
            record s { free_list = lists' },
            some b,
            rw e (
                rw (hit, allocate)
                  (rw (Scanned-not_null b lists' (ground (arith, e)) v (parts b lists' hit)) refl)),
            Sound-Scanned b lists' v (parts b lists' hit),
          )
        ]
      ]
    where
      parts :
          (b : Block) (lists' : List (List FreeRange))
          → scan layout s.free_list ≡ some (b, lists')
          → Scanned u layout l s.free_list b lists'
      parts b lists' hit = scan-Scanned u layout l s.free_list b lists' v.units hit

      asked :
          (r : Outcome (Reply Block))
          → call_alloc s.alloc libc layout.size ≡ r
          → Answers layout.size r
          → (s' : State) × (o : Option Block) × ((r >>= add_page s layout) ≡ ok (s', o))
            × After s' o
      asked panic q a = absurd a
      asked (ok (failed e)) q a = (s, none, refl, refl)
      asked (ok (done page)) q a = Sound-new_page page d v a (fresh_pages layout.size page q)
