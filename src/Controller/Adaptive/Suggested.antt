-- ===== src/Controller/Adaptive/Suggested.antt =====
-- multipath-orchestrator/libampccl/controller/controller.h: what is learnt is what is suggested.
use hy_link.Controller.Bounds.Runs.{inverse_update-IsBounded}
use hy_link.Prelude.{◌≡◌, refl, true, false, [], ◌∷◌, arith, if◌then◌else◌, ap, ◌∙◌}
use hy_link.Controller.Adaptive.{
  AlgoConfig, Algo, inverse, AlgoTable, algo_of, put_algo, suggest_alpha, updated_param,
  controller_update, algo_alpha, algo_suggest, algo_update,
}
use hy_link.Controller.{
  ExecStat, InverseProportion, min_alpha, max_alpha, clamp_low, clamp_both, inverse_update,
  inverse_suggest,
}
use hy_link.Controller.Bounds.{measured, IsBounded, IsNumber}
use hy_link.Floats.{Double, DoubleLaws, ScaleLaws}
use hy_link.Keys.{OpKey, op_key_eq}
use hy_link.Keys.Laws.{op_key_eq_iff}
use hy_link.Cache
use hy_link.Cache.{ParamValue, ParamTable}
use hy_link.Cache.Laws.{lookup-update, contains-update}

algo_of-put_algo :
    (d : Double) (cfg : AlgoConfig d.F) (t : AlgoTable d) (k j : OpKey) (a : Algo d)
    → algo_of d cfg (put_algo d t k a) j ≡ (if op_key_eq k j then a else algo_of d cfg t j)
unfolding algo_of put_algo
algo_of-put_algo d cfg [] k j a = refl
algo_of-put_algo d cfg ((i, b) ∷ t) k j a =
    ground (
      arith,
      op_key_eq_iff i k,
      op_key_eq_iff i j,
      op_key_eq_iff k j,
      algo_of-put_algo d cfg t k j a,
    )

clamp_both_id :
    (d : Double) (scale : ScaleLaws d) (a : d.F)
    → d.le (min_alpha d) a ≡ true
    → d.le a (max_alpha d) ≡ true
    → clamp_both d a ≡ a
unfolding clamp_both clamp_low
clamp_both_id d scale a lo hi =
    let l = scale.not_lt_of_le (min_alpha d) a lo in
    let h = scale.not_lt_of_le a (max_alpha d) hi in ground arith

inverse_suggest-alpha :
    (d : Double) (u : InverseProportion d) (param : ParamValue d.F)
    → (inverse_suggest d u param).alpha ≡ clamp_both d param.alpha
unfolding inverse_suggest
inverse_suggest-alpha d u param = refl

algo_update-inverse :
    (d : Double) (cfg : AlgoConfig d.F) (a : InverseProportion d) (stat : ExecStat d.F)
    → algo_update d cfg (inverse a) stat ≡ inverse (inverse_update d a stat)
unfolding algo_update
algo_update-inverse d cfg a stat = refl

updated_param-alpha :
    (d : Double) (cfg : AlgoConfig d.F) (u : InverseProportion d) (prev : ParamValue d.F)
    (stat : ExecStat d.F)
    → (updated_param d cfg (inverse u) prev stat).alpha ≡ u.alpha
unfolding updated_param algo_alpha
updated_param-alpha d cfg u prev stat = refl

-- A bounded algorithm that is stored beside its own alpha suggests that.
suggest_alpha-stored :
    (d : Double) (scale : ScaleLaws d) (cfg : AlgoConfig d.F) (t : AlgoTable d) (k j : OpKey)
    (u : InverseProportion d) (param : ParamValue d.F) (cache : ParamTable d.F)
    → op_key_eq k j ≡ true
    → IsBounded d u
    → param.alpha ≡ u.alpha
    → (suggest_alpha d cfg (put_algo d t k (inverse u)) j (Cache.update cache k param)).0 ≡ u.alpha
unfolding suggest_alpha algo_suggest algo_alpha
suggest_alpha-stored d scale cfg t k j u param cache same b e =
    let stored = algo_of-put_algo d cfg t k j (inverse u) in
    let found = lookup-update d cache k j param in
    let there = contains-update cache k j param in
    rw (there, stored, found)
      (rw same (
        inverse_suggest-alpha d u param
        ∙ ap (clamp_both d) e
        ∙ clamp_both_id d scale u.alpha b.min-le-alpha b.alpha-le-max))

-- With the algorithm of inverse proportion, the alpha that an update of an operation arrives at is
-- what is suggested next under every key that the tables take for that operation's, and it is what
-- is cached there; the suggestion leaves the cache alone, and keys of other operations keep their
-- cached parameters. No NaN may come in with the measurement.
pub suggest_alpha-controller_update :
    (d : Double) (laws : DoubleLaws d) (scale : ScaleLaws d) (cfg : AlgoConfig d.F)
    (t : AlgoTable d) (k j : OpKey) (algo : InverseProportion d) (stat : ExecStat d.F)
    (cache : ParamTable d.F)
    → algo_of d cfg t k ≡ inverse algo
    → IsBounded d algo
    → IsNumber d (measured stat)
    → let next = inverse_update d algo stat in
      let (t', cache') = controller_update d cfg t k stat cache in
      (op_key_eq k j ≡ true
        → ((suggest_alpha d cfg t' j cache').0 ≡ next.alpha)
          × ((Cache.lookup d cache' j).alpha ≡ next.alpha))
      × (op_key_eq k j ≡ false → Cache.lookup d cache' j ≡ Cache.lookup d cache j)
unfolding controller_update suggest_alpha updated_param
suggest_alpha-controller_update d laws scale cfg t k j algo stat cache own b num =
    let u = inverse_update d algo stat in
    let param = updated_param d cfg (inverse u) (Cache.lookup d cache k) stat in
    let now : algo_update d cfg (algo_of d cfg t k) stat ≡ inverse (inverse_update d algo stat) =
      rw own (algo_update-inverse d cfg algo stat) in
    rw now (
      λ same. (
        suggest_alpha-stored d scale cfg t k j u param cache same
            (inverse_update-IsBounded d laws scale algo stat num b)
            (updated_param-alpha d cfg u (Cache.lookup d cache k) stat),
        rw (lookup-update d cache k j param)
            (rw same (updated_param-alpha d cfg u (Cache.lookup d cache k) stat)),
      ),
      λ other. lookup-update d cache k j param ∙ rw other,
    )
