-- ===== src/Controller/Adaptive.antt =====
-- multipath-orchestrator/libampccl/controller/controller.h and algo_factory.h: one algorithm for each
-- operation, made when the operation is first seen. A method holds the controller's mutex, so it is
-- one step; the hash table is an association list under the equality of keys.
pub mod Suggested
use hy_link.Prelude.{ℕ, Bool, false, ◌&&◌, Option, List, [], ◌∷◌, ltb, if◌then◌else◌}
use hy_link.Controller.SplitRatio.{
  SplitConfig, SplitRatio, split_ratio, split_suggest, split_update,
}
use hy_link.Controller.{
  ExecStat, RateSetting, fast_bandwidth, pcie_bandwidth, InverseProportion, inverse_proportion,
  inverse_suggest, inverse_update,
}
use hy_link.Floats.{Double, zero_f, one_f}
use hy_link.Keys.{OpKey, op_key_eq}
use hy_link.Cache
use hy_link.Cache.{ParamValue, ParamTable}

-- AdaptiveAlgorithm
pub data AlgoKind : Type 0 where
  inverse_kind split_kind static_kind : AlgoKind

-- What the environment and the number of ranks give.
pub record AlgoConfig (F : Type 0) : Type 0 where
  pub kind : AlgoKind
  pub sqrt : F → F
  pub nranks : ℕ
  pub initial : Option F
  pub low : RateSetting F
  pub high : RateSetting F
  pub split_config : SplitConfig F
  pub static_alpha : F
  pub pcie_enabled : Bool

module _ (d : Double) where
  -- The algorithms that the factory makes.
  pub data Algo : Type 0 where
    inverse : InverseProportion d → Algo
    split : SplitRatio d → Algo
    static : d.F → Algo

  unfoldable pub create : AlgoConfig d.F → Algo
  create cfg = elim cfg.kind [
    | inverse_kind ↦ inverse (inverse_proportion d cfg.sqrt cfg.nranks cfg.initial cfg.low cfg.high)
    | split_kind ↦ split (split_ratio d cfg.split_config)
    | static_kind ↦ static cfg.static_alpha
  ]

  pub algo_alpha : Algo → d.F
  algo_alpha (inverse a) = a.alpha
  algo_alpha (split a) = a.alpha
  algo_alpha (static alpha) = alpha

  pub algo_best_alpha : Algo → d.F
  algo_best_alpha (inverse a) = a.best_alpha
  algo_best_alpha (split a) = a.best_alpha
  algo_best_alpha (static alpha) = zero_f d

  pub algo_best_bandwidth : Algo → d.F
  algo_best_bandwidth (inverse a) = a.best_bandwidth
  algo_best_bandwidth (split a) = a.best_bandwidth
  algo_best_bandwidth (static alpha) = zero_f d

  pub algo_suggest : AlgoConfig d.F → Algo → ParamValue d.F → Algo
  algo_suggest cfg (inverse a) current = inverse (inverse_suggest d a current)
  algo_suggest cfg (split a) current = split (split_suggest d cfg.split_config a current)
  algo_suggest cfg (static alpha) current = static alpha

  pub algo_update : AlgoConfig d.F → Algo → ExecStat d.F → Algo
  algo_update cfg (inverse a) stat = inverse (inverse_update d a stat)
  algo_update cfg (split a) stat = split (split_update d cfg.split_config a stat)
  algo_update cfg (static alpha) stat = static alpha

  abbrev pub AlgoTable : Type 0
  AlgoTable = List (OpKey × Algo)

  -- The algorithm of a key, a new one if it has none.
  unfoldable pub algo_of : AlgoConfig d.F → AlgoTable → OpKey → Algo
  algo_of cfg [] key = create cfg
  algo_of cfg ((k, a) ∷ t) key = if op_key_eq k key then a else algo_of cfg t key

  -- The table with the key's algorithm in its new state.
  pub put_algo : AlgoTable → OpKey → Algo → AlgoTable
  put_algo [] key a = (key, a) ∷ []
  put_algo ((k, b) ∷ t) key a = if op_key_eq k key then (k, a) ∷ t else (k, b) ∷ put_algo t key a

  -- SuggestAlpha: the alpha and the table after it.
  pub suggest_alpha : AlgoConfig d.F → AlgoTable → OpKey → ParamTable d.F → d.F × AlgoTable
  suggest_alpha cfg t key cache =
      let algo = algo_of cfg t key in
      let asked = algo_suggest cfg algo (Cache.lookup d cache key) in
      if Cache.contains cache key
      then (algo_alpha asked, put_algo t key asked)
      else (algo_alpha algo, put_algo t key algo)

  -- What Update caches for a measured collective.
  pub updated_param : AlgoConfig d.F → Algo → ParamValue d.F → ExecStat d.F → ParamValue d.F
  updated_param cfg algo prev stat =
      let pcie_bw = pcie_bandwidth d stat in
      record {
        alpha = algo_alpha algo;
        use_pcie =
            if cfg.pcie_enabled
            then (if ltb 0 stat.pcie_bytes
                then stat.pcie_success && d.lt (zero_f d) pcie_bw
                else prev.use_pcie)
            else false;
        fast_bw = fast_bandwidth d stat;
        pcie_bw = pcie_bw;
        best_alpha = algo_best_alpha algo;
        best_bandwidth = algo_best_bandwidth algo;
      }

  pub controller_update :
      AlgoConfig d.F
      → AlgoTable
      → OpKey
      → ExecStat d.F
      → ParamTable d.F
      → AlgoTable × ParamTable d.F
  controller_update cfg t key stat cache =
      let algo = algo_update cfg (algo_of cfg t key) stat in
      let param = updated_param cfg algo (Cache.lookup d cache key) stat in
      (put_algo t key algo, Cache.update cache key param)

  pub controller_reset : AlgoTable → AlgoTable
  controller_reset t = []
