-- ===== src/Executor/Loop/Submitting.antt =====
-- The loop of `run` of executor.rs against its machine: what the loop relies on, and the submissions.
use mathlib.Core.List.{append_assoc, append-nil}
use io.Prelude.{
  ◌≡◌, ◌⊎◌, inl, inr, refl, sym, ap, ◌∙◌, subst, List, [], ◌∷◌, ◌++◌, ok, Bool, false, Permᴰ,
}
use io.Slab.{Key}
use io.Executor.Ring.{RingLaws}
use io.Executor.Ring.Passing.{try_submit_io-Passed}
use io.Executor.Machine.{Machine, Step, Reach, steps, submits, submits_direct}
use io.Executor.Consistent.{finished_entries}
use io.Executor.Loop.{World, Run, submit_both}
use io.Executor.Loop.Panics.{SubmitRefused, in_io, in_dio}
use io.Executor.{Sqe, Context}

-- some steps of the machine
pub data Steps {T O : Type 0} (close_id : Key) : Machine T O → Machine T O → Type 0 where
  rests : {m : Machine T O} → Steps close_id m m
  then_step :
      {m m1 m2 : Machine T O} → Steps close_id m m1 → Step close_id m1 m2 → Steps close_id m m2

pub Reach-Steps :
    {T O : Type 0} {close_id : Key} {m m' : Machine T O}
    → Reach close_id m
    → Steps close_id m m'
    → Reach close_id m'
Reach-Steps r rests = r
Reach-Steps r (then_step s t) = steps (Reach-Steps r s) t

-- What the loop relies on: a ring holds an entry until its completion is taken, a task acts by the
-- operations of its context, and only so many files are open at a time.
pub record WorldLaws {T O W R : Type 0} (world : World T O W R) : Type 0 where
  pub laws : RingLaws world.ring
  pub sync_completed_held : (r : R) → laws.held (world.sync_completed r) ≡ laws.held r
  pub wait_held : (r : R) → laws.held (world.wait r).0 ≡ laws.held r
  pub take_held :
      (r : R)
      → Permᴰ
          (laws.held r)
          (finished_entries (world.completed r) ++ laws.held (world.take_completed r))
  pub polls :
      (close_id : Key) (m : Machine T O) (task : T) (outside outside' : W) (ctx : Context T O)
      (is_ready : Bool)
      → Reach close_id m
      → world.poll task (m.ctx, outside) ≡ ok ((ctx, outside'), is_ready)
      → Steps close_id m (record m { ctx = ctx })

module _ {T O W R : Type 0} (world : World T O W R) (laws : WorldLaws world) (close_id : Key) where
  -- the machine that a state of the loop stands for
  abbrev pub machine : Run T O W R → Machine T O
  machine s = record {
    ctx = s.ctx;
    kernel = laws.laws.held s.ring;
    dio_kernel = laws.laws.held s.dio_ring;
    files_closing = s.files_closing;
  }

  submits-Reach :
      (m : Machine T O) (moved queue : List (Sqe O))
      → m.ctx.io_queue ≡ moved ++ queue
      → Reach close_id m
      → Reach close_id
          (record m { ctx = record m.ctx { io_queue = queue }; kernel = m.kernel ++ moved })
  submits-Reach m [] queue e r =
      subst {A = List (Sqe O) × List (Sqe O)}
        (λ p. Reach close_id (record m { ctx = record m.ctx { io_queue = p.0 }; kernel = p.1 }))
        (ap (λ q. (q, m.kernel)) e ∙ ap (λ k. (queue, k)) (sym (append-nil m.kernel))) r
  submits-Reach m (x ∷ moved) queue e r =
      subst (λ k. Reach close_id (record m { ctx = record m.ctx { io_queue = queue }; kernel = k }))
        (append_assoc m.kernel (x ∷ []) moved)
        (submits-Reach
          (record m {
            ctx = record m.ctx { io_queue = moved ++ queue };
            kernel = m.kernel ++ x ∷ [];
          })
          moved queue refl (steps r (submits m x (moved ++ queue) e)))

  submits_direct-Reach :
      (m : Machine T O) (moved queue : List (Sqe O))
      → m.ctx.dio_queue ≡ moved ++ queue
      → Reach close_id m
      → Reach close_id (record m {
        ctx = record m.ctx { dio_queue = queue };
        dio_kernel = m.dio_kernel ++ moved;
      })
  submits_direct-Reach m [] queue e r =
      subst {A = List (Sqe O) × List (Sqe O)}
        (λ p.
          Reach close_id (record m { ctx = record m.ctx { dio_queue = p.0 }; dio_kernel = p.1 }))
        (ap (λ q. (q, m.dio_kernel)) e ∙ ap (λ k. (queue, k)) (sym (append-nil m.dio_kernel))) r
  submits_direct-Reach m (x ∷ moved) queue e r =
      subst
        (λ k.
          Reach close_id (record m { ctx = record m.ctx { dio_queue = queue }; dio_kernel = k }))
        (append_assoc m.dio_kernel (x ∷ []) moved)
        (submits_direct-Reach
          (record m {
            ctx = record m.ctx { dio_queue = moved ++ queue };
            dio_kernel = m.dio_kernel ++ x ∷ [];
          })
          moved queue refl (steps r (submits_direct m x (moved ++ queue) e)))

  -- Both submissions are steps of the machine, unless one is refused.
  pub submit_both-Reach :
      (force : Bool) (s : Run T O W R)
      → Reach close_id (machine s)
      → ((s' : Run T O W R) × (submit_both world force s ≡ ok s')
          × Reach close_id (machine s')
          × (s'.files_closing ≡ s.files_closing)
          × (s'.outside ≡ s.outside))
        ⊎ SubmitRefused world force s
  unfolding submit_both
  submit_both-Reach force s r =
      elim (try_submit_io-Passed world.ring laws.laws s.ctx.io_queue s.ring false) [
        | inr (_, refused) ↦ inr (in_io refused)
        | inl (queue, ring, e, p) ↦
            elim (try_submit_io-Passed world.ring laws.laws s.ctx.dio_queue s.dio_ring force) [
              | inr (_, refused) ↦ inr (in_dio queue ring e refused)
              | inl (dio_queue, dio_ring, e', p') ↦
                  let r1 = submits-Reach (machine s) p.moved queue p.queue_split r in
                  let r2 = submits_direct-Reach _ p'.moved dio_queue p'.queue_split r1 in
                  inl (
                    record s {
                      ctx = record s.ctx { io_queue = queue; dio_queue = dio_queue };
                      ring = ring;
                      dio_ring = dio_ring;
                    },
                    rw e (rw e' refl),
                    subst {A = List (Sqe O) × List (Sqe O)}
                        (λ k. Reach close_id (record {
                          ctx = record s.ctx { io_queue = queue; dio_queue = dio_queue };
                          kernel = k.0;
                          dio_kernel = k.1;
                          files_closing = s.files_closing;
                        }))
                        (ap (λ k. (k, laws.laws.held s.dio_ring ++ p'.moved)) (sym p.in_order)
                          ∙ ap (λ k. (laws.laws.held ring, k)) (sym p'.in_order))
                        r2,
                    refl,
                    refl,
                  )
            ]
      ]
