-- ===== src/Slab/Wrap.antt =====
-- What becomes of an old key of slab.rs when the generation counter wraps at `2 ^ 32`.
use io.Prelude.{◌-◌, ◌≡◌, some, arith, ok}
use io.Word.{u32_mod}
use io.Slab.{Key, Slab, insert, remove, get}
use io.Slab.Validity.{IsValid, Fits}
use io.Slab.Inserting.{insert-Inserted, next_key}
use io.Slab.Removing.{remove-Removed, emptied}

-- Where the counter stands at its largest value, a removed key reads the value that the next
-- `insert` stores, though it was issued for another one.
pub wrapped_key_reads {ℓ} :
    {T : Type ℓ} (s : Slab T) (key : Key) (w val : T)
    → IsValid s
    → get s key ≡ some w
    → s.current_generation ≡ u32_mod - 1
    → Fits (remove s key).0
    → (s' : Slab T) × (k : Key) × (insert (remove s key).0 val ≡ ok (s', k))
      × (get s' key ≡ some val)
wrapped_key_reads s key w val v live top fits =
    let r = remove-Removed s key w v live in
    let e = emptied s key.index in
    let (t, ins) = insert-Inserted e val r.valid (rw r.made at fits) in
    (t, next_key e, rw r.made ins.made, ground (arith, ins.reads key, top))
