-- ===== src/Domain/ShmStore/Agreement.antt =====
-- multipath-orchestrator/libampccl/core/shm_store.cc: the statistics that rank 0 uses are those of all
-- ranks, and all ranks use the parameters that it makes of them.
use hy_link.Cache.Laws.{lookup-update}
use hy_link.Keys.{OpKey, op_key_eq}
use hy_link.Cache.{ParamTable, merge_one, lookup, ParamValue, update}
use hy_link.Floats.{Double, DoubleLaws, ScaleLaws}
use hy_link.Controller.{ExecStat}
use hy_link.Controller.Adaptive.{AlgoConfig, AlgoTable, controller_update}
use hy_link.Domain.ShmStore.{
  ShmParamStore, nothing, aggregated, is_current, any_current, all_current, all_success,
  merge_entries, read_params, max_time, global_stat, next_epoch, read_all_stats_and_aggregate,
  shm_round_begin, write_params, signal_param_written,
}
use hy_link.Prelude.{
  ℕ, zero, suc, ◌<◌, ◌≡◌, refl, subst, inl, inr, Bool, true, false, some, arith, ◌==◌,
  if◌then◌else◌, Bool-cases, sym, ◌∙◌, none,
}

-- The marks of an epoch: as far as any rank below `n` goes, none is current if every one is invalid.
any_current-invalid :
    {F : Type 0} (st : ShmParamStore F) (n : ℕ)
    → ((r : ℕ) → r < n → (st.slots r).valid ≡ false)
    → any_current st n ≡ false
unfolding any_current is_current
any_current-invalid st zero h = refl
any_current-invalid st (suc n) h =
    ground (arith, any_current-invalid st n (λ r k. h r (omega (arith, k))), h n (omega arith))

all_current-each :
    {F : Type 0} (st : ShmParamStore F) (n : ℕ)
    → all_current st n ≡ true
    → (r : ℕ) → r < n
    → is_current st r ≡ true
unfolding all_current
all_current-each st zero h r k = absurd (omega arith)
all_current-each st (suc n) h r k = elim (Bool-cases (r == n)) [
  | inl t ↦
      let e : n ≡ r = ground arith in subst (λ m. is_current st m ≡ true) e (ground (arith, h))
  | inr t ↦ all_current-each st n (ground (arith, h)) r (ground (arith, k, t))
]

all_success-each :
    {F : Type 0} (success : ExecStat F → Bool) (st : ShmParamStore F) (n : ℕ)
    → all_success success st n ≡ true
    → (r : ℕ) → r < n
    → success (st.slots r).stat ≡ true
unfolding all_success
all_success-each success st zero h r k = absurd (omega arith)
all_success-each success st (suc n) h r k = elim (Bool-cases (r == n)) [
  | inl t ↦
      let e : n ≡ r = ground arith in
      subst (λ m. success (st.slots m).stat ≡ true) e (ground (arith, h))
  | inr t ↦ all_success-each success st n (ground (arith, h)) r (ground (arith, k, t))
]

module _ (d : Double) (laws : DoubleLaws d) (scale : ScaleLaws d) where
  larger-keeps :
      (best x y : d.F) → d.lt best y ≡ false → d.lt (if d.lt best x then x else best) y ≡ false
  larger-keeps best x y h =
      ground (arith, scale.le_of_lt x y, scale.lt-le_trans best x y, scale.le_of_lt best x)

  larger-bound : (best x : d.F) → d.lt (if d.lt best x then x else best) x ≡ false
  larger-bound best x = ground (arith, laws.lt_irrefl x)

  -- No rank below `n` needed more than the time that is taken.
  max_time-bound :
      (time : ExecStat d.F → d.F) (st : ShmParamStore d.F) (n r : ℕ)
      → r < n
      → d.lt (max_time d time st n) (time (st.slots r).stat) ≡ false
  unfolding max_time
  max_time-bound time st zero r h = absurd (omega arith)
  max_time-bound time st (suc n) r h = elim (Bool-cases (r == n)) [
    | inl t ↦
        let e : n ≡ r = ground arith in
        subst (λ m. d.lt (max_time d time st (suc n)) (time (st.slots m).stat) ≡ false) e
          (larger-bound _ _)
    | inr t ↦ larger-keeps _ _ _ (max_time-bound time st n r (ground arith))
  ]

  -- What is taken for all ranks: each wrote in this epoch, none needed longer, and none failed where a
  -- success is reported.
  abbrev pub IsJoint : ShmParamStore d.F → ExecStat d.F → ℕ → Type 0
  IsJoint st stat r =
      (is_current st r ≡ true)
      × (d.lt stat.fast_time ((st.slots r).stat).fast_time ≡ false)
      × (d.lt stat.pcie_time ((st.slots r).stat).pcie_time ≡ false)
      × (stat.fast_success ≡ true → ((st.slots r).stat).fast_success ≡ true)
      × (stat.pcie_success ≡ true → ((st.slots r).stat).pcie_success ≡ true)

  global_stat-IsJoint :
      (st : ShmParamStore d.F) (r : ℕ)
      → all_current st st.nranks ≡ true
      → r < st.nranks
      → IsJoint st (global_stat d st) r
  unfolding global_stat
  global_stat-IsJoint st r all h = (
    all_current-each st st.nranks all r h,
    max_time-bound (λ s. s.fast_time) st st.nranks r h,
    max_time-bound (λ s. s.pcie_time) st st.nranks r h,
    λ ok. all_success-each (λ s. s.fast_success) st st.nranks ok r h,
    λ ok. all_success-each (λ s. s.pcie_success) st st.nranks ok r h,
  )

  read_all_stats_and_aggregate-inverse :
      (st next : ShmParamStore d.F) (stat : ExecStat d.F) (key : OpKey)
      → read_all_stats_and_aggregate d st ≡ aggregated stat key next
      → (all_current st st.nranks ≡ true) × (global_stat d st ≡ stat) × (next_epoch d st ≡ next)
  unfolding read_all_stats_and_aggregate
  read_all_stats_and_aggregate-inverse st next stat key h =
      elim (Bool-cases (any_current st st.nranks)) [
        | inl t ↦ elim (Bool-cases (all_current st st.nranks)) [
          | inl u ↦
              let e : aggregated (global_stat d st) (st.slots 0).key (next_epoch d st)
                  ≡ aggregated stat key next =
                sym (rw (t, u) refl) ∙ h in
              (u, cc, cc)
          | inr u ↦ absurd (ground (arith, t, u, h))
        ]
        | inr t ↦ absurd (ground (arith, t, h))
      ]

  -- When rank 0 takes statistics, every rank has written its own in the epoch, none needed longer than
  -- the times taken or failed where success is reported, and they are not taken a second time.
  pub read_all_stats_and_aggregate-IsJoint :
      (st next : ShmParamStore d.F) (stat : ExecStat d.F) (key : OpKey)
      → read_all_stats_and_aggregate d st ≡ aggregated stat key next
      → ((r : ℕ) → r < st.nranks → IsJoint st stat r)
        × (read_all_stats_and_aggregate d next ≡ nothing)
  unfolding read_all_stats_and_aggregate next_epoch
  read_all_stats_and_aggregate-IsJoint st next stat key h =
      let (all, same, after) = read_all_stats_and_aggregate-inverse st next stat key h in
      let idle : any_current (next_epoch d st) st.nranks ≡ false =
        any_current-invalid (next_epoch d st) st.nranks (λ r k. ground (arith, k)) in
      let empty : read_all_stats_and_aggregate d (next_epoch d st) ≡ nothing = rw idle refl in
      (
        λ r k. subst (λ (s : ExecStat d.F). IsJoint st s r) same (global_stat-IsJoint st r all k),
        subst (λ (s : ShmParamStore d.F). read_all_stats_and_aggregate d s ≡ nothing) after empty,
      )

same_value :
    (d : Double) (updated other : ParamTable d.F) (key j : OpKey) (value : ParamValue d.F)
    → lookup d (update other key value) j
      ≡ (if op_key_eq key j then lookup d (update updated key value) j else lookup d other j)
same_value d updated other key j value =
    let mine = lookup-update d updated key j value in
    let theirs = lookup-update d other key j value in ground (arith, mine, theirs)

-- After rank 0 has made new parameters for an operation and any other rank has read them, both use the
-- same for it, and the other rank keeps its own for all other operations.
pub shm_round_begin-read_params :
    (d : Double) (cfg : AlgoConfig d.F) (t t' : AlgoTable d) (cache cache' other : ParamTable d.F)
    (st next st' : ShmParamStore d.F) (stat : ExecStat d.F) (key j : OpKey)
    → read_all_stats_and_aggregate d st ≡ aggregated stat key next
    → shm_round_begin d cfg t cache st ≡ some (t', cache', st')
    → lookup d (read_params false st' other).0 j
      ≡ (if op_key_eq key j then lookup d cache' j else lookup d other j)
unfolding shm_round_begin read_params merge_entries merge_one signal_param_written write_params
shm_round_begin-read_params d cfg t t' cache cache' other st next st' stat key j took round =
    let updated = (controller_update d cfg t key stat cache).1 in
    let value = lookup d updated key in
    let written = signal_param_written (write_params next key value) in
    let e : ((controller_update d cfg t key stat cache).0, update updated key value, written)
        ≡ (t', cache', st') =
      let made : shm_round_begin d cfg t cache st
          ≡ some ((controller_update d cfg t key stat cache).0, update updated key value, written) =
        elim (Bool-cases (st.param_read_count == 0)) [
          | inl c ↦ rw (c, took, shm_round_begin) refl
          | inr c ↦
              let stuck : shm_round_begin d cfg t cache st ≡ none = rw (c, shm_round_begin) refl in
              absurd (let e = sym stuck ∙ round in cc)
        ] in
      let e = sym made ∙ round in cc in
    let agreed : lookup d (read_params false written other).0 j
        ≡ (if op_key_eq key j then lookup d (update updated key value) j else lookup d other j) =
      same_value d updated other key j value in
    subst
      (λ (r : AlgoTable d × ParamTable d.F × ShmParamStore d.F).
        lookup d (read_params false r.2 other).0 j
        ≡ (if op_key_eq key j then lookup d r.1 j else lookup d other j))
      e agreed
