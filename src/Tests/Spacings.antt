-- ===== src/Tests/Spacings.antt =====
-- The theorems on the spacing statistics, at an empty collector.
use zgcmaster.Prelude.{true}
use zgcmaster.Spacing.{narrow}
use zgcmaster.Spacing.Collector.{empty, observe_hit}
use zgcmaster.Spacing.Laws.{empty-IsCollector, IsCollector, observe_hit-IsCollector}

observe_hit-IsCollector_example : IsCollector (observe_hit empty narrow 4096 16 true)
observe_hit-IsCollector_example =
    observe_hit-IsCollector empty narrow 4096 16 true empty-IsCollector
