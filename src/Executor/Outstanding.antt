-- ===== src/Executor/Outstanding.antt =====
-- What holds between the operations that are queued or in the kernel and the tables of executor.rs,
-- and how queueing, completion and taking a result keep it.
use io.Prelude.{
  ℕ, ◌≤◌, ◌≡◌, ◌≢◌, ◌⊎◌, inl, inr, refl, sym, ap, ◌∙◌, List, [], ◌∷◌, none, some, if◌then◌else◌,
  Bool, arith, ◌==◌, ==_iff, All, All-both, All-perm, total, total-perm, Permᴰ, Bool-cases,
  Option-cases,
}
use io.Slab.{Key}
use io.Slab
use io.Slab.KeyCode.{from_u64}
use io.Slab.Agreement.{same_key}
use io.VecMap.Laws.{view}
use io.Executor.Queueing.{Sound, Queued}
use io.Executor.{ℤ, Sqe, Context, key_eq}

module _ {O : Type 0} where
  -- the key that comes back with the result of an entry
  abbrev pub id_of : Sqe O → Key
  id_of e = from_u64 e.user_data

  -- one for an entry whose key has the index `i`
  abbrev pub at_index : ℕ → Sqe O → ℕ
  at_index i e = if (id_of e).index == i then 1 else 0

  -- one for an entry that closes a dropped file
  abbrev pub closing : Key → Sqe O → ℕ
  closing close_id e = if same_key (id_of e) close_id then 1 else 0

  -- Where no entry has an index, every entry has another.
  pub elsewhere :
      (i : ℕ) (out : List (Sqe O)) → total (at_index i) out ≡ 0 → All (λ e. (id_of e).index ≢ i) out
  elsewhere i [] h = tt
  elsewhere i (e ∷ out) h = ((λ same. ground (arith, h, same)), elsewhere i out (omega (arith, h)))

  pub none_at :
      (i : ℕ) (out : List (Sqe O)) → All (λ e. (id_of e).index ≢ i) out → total (at_index i) out ≡ 0
  none_at i [] h = refl
  none_at i (e ∷ out) h = ground (arith, h.0, none_at i out h.1)

module _ {T O : Type 0} (close_id : Key) where
  -- An entry closes a dropped file, or its key reads a task and has no result yet.
  abbrev pub Live : Context T O → Sqe O → Type 0
  Live ctx e =
      (id_of e ≡ close_id)
      ⊎ (((id_of e).index ≢ close_id.index)
          × (task : Key) × (Slab.get ctx.io (id_of e) ≡ some task)
          × (view key_eq ctx.io_results (id_of e) ≡ none))

  -- `out` are the entries that wait in a queue or run in the kernel.
  pub record Tracks (ctx : Context T O) (out : List (Sqe O)) (files_closing : ℕ) : Type 0 where
    pub sound : Sound ctx
    pub live : All (Live ctx) out
    pub once : (i : ℕ) → i ≢ close_id.index → total (at_index i) out ≤ 1
    pub counted : files_closing ≡ total (closing close_id) out
    pub closer : (task : Key) × (Slab.get ctx.io close_id ≡ some task)
    pub finished :
        (k : Key) (r : ℤ)
        → view key_eq ctx.io_results k ≡ some r
        → (k.index ≢ close_id.index)
          × (total (at_index k.index) out ≡ 0)
          × (task : Key) × (Slab.get ctx.io k ≡ some task)
    pub single :
        (k q : Key) (r s : ℤ)
        → view key_eq ctx.io_results k ≡ some r
        → view key_eq ctx.io_results q ≡ some s
        → k.index ≡ q.index
        → k ≡ q

  -- The order of the entries does not matter.
  pub Tracks-perm :
      {ctx : Context T O} {out out' : List (Sqe O)} {n : ℕ}
      → Permᴰ out out'
      → Tracks ctx out n
      → Tracks ctx out' n
  Tracks-perm {ctx} p t = record {
    sound = t.sound;
    live = All-perm (Live ctx) p t.live;
    once = λ i ne. omega (arith, total-perm (at_index i) p, t.once i ne);
    counted = omega (arith, total-perm (closing close_id) p, t.counted);
    closer = t.closer;
    finished = λ k r h.
        let (ne, zero_at, task, owned) = t.finished k r h in
        (ne, omega (arith, total-perm (at_index k.index) p, zero_at), task, owned);
    single = t.single;
  }

  -- A new operation has an index that no entry has.
  Queued-elsewhere :
      (ctx ctx' : Context T O) (operation : O) (direct_io : Bool) (io_id : Key) (out : List (Sqe O))
      (n : ℕ)
      → Tracks ctx out n
      → Queued operation direct_io ctx ctx' io_id
      → (io_id.index ≢ close_id.index) × All (λ e. (id_of e).index ≢ io_id.index) out
  Queued-elsewhere ctx ctx' operation direct_io io_id out n t q =
      let (task, closes) = t.closer in
      let apart : io_id.index ≢ close_id.index = λ e. cc (q.vacant close_id (sym e), closes) in
      (
        apart,
        All-both {P = Live ctx} {Q = Live ctx}
            (λ e l m. elim l [
              | inl same ↦ λ i. apart (sym i ∙ ap (λ k. k.index) same)
              | inr other ↦
                  let (ne, task', reads, r) = other in λ i. cc (q.vacant (id_of e) i, reads)
            ])
            out t.live t.live,
      )

  pub queue_io-Tracks :
      (ctx ctx' : Context T O) (operation : O) (direct_io : Bool) (io_id : Key) (out : List (Sqe O))
      (n : ℕ)
      → Tracks ctx out n
      → (q : Queued operation direct_io ctx ctx' io_id) → Tracks ctx' (q.entry ∷ out) n
  queue_io-Tracks ctx ctx' operation direct_io io_id out n t q =
      let (apart, others) = Queued-elsewhere ctx ctx' operation direct_io io_id out n t q in
      let (closer, closes) = t.closer in
      let index : (id_of q.entry).index ≡ io_id.index = ap (λ k. k.index) q.comes_back in
      let same_view : (k : Key) → view key_eq ctx'.io_results k ≡ view key_eq ctx.io_results k =
        λ k. ap (λ m. view key_eq m k) q.same_results in
      let fresh : view key_eq ctx.io_results io_id ≡ none =
        elim (Option-cases (view key_eq ctx.io_results io_id)) [
          | inl absent ↦ absent
          | inr (r, there) ↦
              let (ne, at, task, owned) = t.finished io_id r there in absurd (cc (owned, q.unused))
        ] in
      record {
        sound = q.sound;
        live = (
          rw q.comes_back (inr (apart, ctx.task_id, q.owned, same_view io_id ∙ fresh)),
          All-both {P = Live ctx} {R = Live ctx'}
              (λ e l ne. elim l [
                | inl same ↦ inl same
                | inr other ↦
                    let (c, task, reads, waits) = other in
                    inr (c, task, q.others (id_of e) ne ∙ reads, same_view (id_of e) ∙ waits)
              ])
              out t.live others,
        );
        once = λ i ne. elim (Bool-cases (io_id.index == i)) [
          | inl new ↦ ground (
            arith,
            new,
            index,
            none_at io_id.index out others,
            ap (λ j. total (at_index j) out) ((==_iff io_id.index i).0 new),
          )
          | inr old ↦ ground (arith, old, index, t.once i ne)
        ];
        counted = ground (arith, t.counted, index, apart);
        closer = (closer, q.others close_id (λ e. apart (sym e)) ∙ closes);
        finished = λ k r h.
            let (ne, at, task, owned) = t.finished k r (sym (same_view k) ∙ h) in
            let old : k.index ≢ io_id.index = λ e. cc (q.vacant k e, owned) in
            (ne, ground (arith, at, index, old), task, q.others k old ∙ owned);
        single =
            λ k p r s h g e. t.single k p r s (sym (same_view k) ∙ h) (sym (same_view p) ∙ g) e;
      }
