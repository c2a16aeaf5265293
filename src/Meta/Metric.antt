-- ===== src/Meta/Metric.antt =====
-- The distance metric of a namespace (src/meta.rs): set by the first commit, fixed from then on.
use openpuffer.Base.{◌-◌, ◌^◌, ◌≤◌, ◌≡◌, ◌≢◌, refl, ◌∙◌, Option, none, some, arith}
use openpuffer.Base.Logic.{ok, err}
use openpuffer.Error.{Error, message}
use openpuffer.Meta.Types.{DistanceMetric, NamespaceMeta, SchemaOps}
use openpuffer.Meta.Commit.{resolve_distance_metric, meta_after_compaction}
use openpuffer.Meta.Valid.{
  IsValid, Commit, of_wal, of_index, of_compaction, Reach, here, next, wal_commit_fields,
  index_commit_fields, Reach-IsValid,
}

module _ {S : Type 0} where
  -- A first write may choose any metric; a later one gets the namespace's, or an error.
  pub resolve_outcome :
      (m : NamespaceMeta S) (d : DistanceMetric)
      → (m.wal_commit_seq ≡ 0 → resolve_distance_metric m (some d) ≡ ok d)
        × (m.wal_commit_seq ≢ 0 → d ≡ m.distance_metric → resolve_distance_metric m (some d) ≡ ok d)
        × (m.wal_commit_seq ≢ 0
            → d ≢ m.distance_metric
            → (e : Error) × (resolve_distance_metric m (some d) ≡ err e))
  unfolding resolve_distance_metric
  resolve_outcome m d = (
    λ w. ground arith,
    λ w e. ground arith,
    λ w e. (message "distance_metric conflicts with namespace", ground arith),
  )

  resolve-fixed :
      (m : NamespaceMeta S) (o : Option DistanceMetric) (d : DistanceMetric)
      → m.wal_commit_seq ≢ 0
      → resolve_distance_metric m o ≡ ok d
      → d ≡ m.distance_metric
  unfolding resolve_distance_metric
  resolve-fixed m none d w h = ground arith
  resolve-fixed m (some x) d w h = ground arith

module _ {S : Type 0} (ops : SchemaOps S) where
  Commit-metric :
      (m n : NamespaceMeta S)
      → Commit ops m n
      → m.wal_commit_seq ≢ 0
      → n.distance_metric ≡ m.distance_metric
  unfolding meta_after_compaction
  Commit-metric m n (of_wal seq patch metric h) w =
      let (_, _, _, _, r, _) = wal_commit_fields ops m n seq patch metric h in
      resolve-fixed m metric n.distance_metric w r
  Commit-metric m n (of_index cursor fts filter version fields l h) w =
      let (_, _, core) = index_commit_fields m n cursor fts filter version fields h in
      core.distance_metric
  Commit-metric m n (of_compaction needed h) w = ground arith

  -- Once something is committed, no sequence of commits changes the distance metric.
  pub Reach-metric :
      (m : NamespaceMeta S) {n : NamespaceMeta S}
      → Reach ops m n
      → m.wal_commit_seq ≤ 2 ^ 64 - 1
      → IsValid m
      → m.wal_commit_seq ≢ 0
      → n.distance_metric ≡ m.distance_metric
  Reach-metric m here u v w = refl
  Reach-metric m (next {n = n} {o = o} r step) u v w =
      let (_, behind, _) = Reach-IsValid ops m r u v in
      let w' : n.wal_commit_seq ≢ 0 = omega arith in
      Commit-metric n o step w' ∙ Reach-metric m r u v w
