-- ===== src/Scaleset/Reconcile.antt =====
-- internal/scaleset/scaleset.go: `reconcileScaleSet`. The two calls of `scaleSetAPI` are parameters.
pub mod Laws
use incuse.Base.{ℤ, Text, Bool, not, Option, none, some, List, Result, if◌then◌else◌}
use incuse.Scaleset.Labels.{Label, to_labels, label_names_match}

-- `ssapi.RunnerScaleSet`, of which a request has no id.
pub record RunnerScaleSet : Type 0 where
  pub id : ℤ
  pub name : Text
  pub runner_group_id : ℤ
  pub labels : List Label

pub record ScaleSetRequest : Type 0 where
  pub name : Text
  pub runner_group_id : ℤ
  pub labels : List Label

-- The call that the code makes, if it makes one.
pub data Call : Type 0 where
  create : ScaleSetRequest → Call
  update : ℤ → ScaleSetRequest → Call
  keep : RunnerScaleSet → Call

unfoldable pub update_call : RunnerScaleSet → ℤ → List Text → Call
unfolding to_labels
update_call existing group want =
    update existing.id
      (record { name = existing.name; runner_group_id = group; labels = to_labels want })

unfoldable pub plan : Text → ℤ → Option RunnerScaleSet → List Text → Call
unfolding update_call label_names_match to_labels
plan name group none want =
    create (record { name = name; runner_group_id = group; labels = to_labels want })
plan name group (some existing) want =
    if not (label_names_match existing.labels want)
    then update_call existing group want
    else keep existing

module _ (create_scale_set : ScaleSetRequest → Result RunnerScaleSet)
    (update_scale_set : ℤ → ScaleSetRequest → Result RunnerScaleSet) where
  unfoldable pub run_call : Call → Result RunnerScaleSet
  run_call (create r) = create_scale_set r
  run_call (update id r) = update_scale_set id r
  run_call (keep s) = Result.ok s

  unfoldable pub reconcile_scale_set :
      Text → ℤ → Option RunnerScaleSet → List Text → Result RunnerScaleSet
  unfolding plan run_call
  reconcile_scale_set name group existing want = run_call (plan name group existing want)
