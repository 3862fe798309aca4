-- ===== src/Attributes/Tests.antt =====
-- The merge of overrides, at two lists of them.
use flyteadmin.Scheduler.Core.Maps.{Unique}
use flyteadmin.Attributes.Merge.{load-merge_update_plugin_overrides, last_for, first_some}
use flyteadmin.Scheduler.Core.{load}
use flyteadmin.Attributes.{
  merge_update_plugin_overrides, plugin_overrides, overrides_of, MatchingAttributes,
}
use flyteadmin.Common.{◌≡◌, [], ◌∷◌}

abbrev on_record : MatchingAttributes
on_record = plugin_overrides (("spark", "v1") ∷ ("hive", "v1") ∷ [])

abbrev asked : MatchingAttributes
asked = plugin_overrides (("hive", "v2") ∷ ("sidecar", "v1") ∷ [])

load-merge_update_plugin_overrides_example :
    (load "hive" (overrides_of (merge_update_plugin_overrides on_record asked))
      ≡ first_some
          (last_for "hive" (overrides_of asked))
          (last_for "hive" (overrides_of on_record)))
    × Unique (overrides_of (merge_update_plugin_overrides on_record asked))
load-merge_update_plugin_overrides_example =
    load-merge_update_plugin_overrides on_record asked "hive"
