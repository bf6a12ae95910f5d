-- ===== src/Examples/OfPanel.antt =====
-- src/monitor/SystemMonitor.cpp: four blocks of the heat map, and a window of 80 by 24.
use hyperion_euntime_environ.Base.{ℕ, ◌-◌, ◌<◌, ◌≤◌, ◌≡◌, ◌⊎◌, List, [], ◌∷◌, arith, get_or}
use hyperion_euntime_environ.Panel.{update_heat}
use hyperion_euntime_environ.Panel.Heat.{update_heat-bounds}
use hyperion_euntime_environ.Panel.Layout.{IsLayout, panels-IsLayout}

abbrev heats : List ℕ
heats = 5 ∷ 1 ∷ 4 ∷ 0 ∷ []

update_heat-bounds_example :
    (get_or (update_heat 2 9 heats).0 1 0 ≤ 5)
    × ((2 ≤ 1) ⊎ (1 ≤ get_or (update_heat 2 9 heats).0 1 0))
    × ((get_or (update_heat 2 9 heats).0 1 0 ≡ get_or heats 1 0 - 1)
        ⊎ ((get_or (update_heat 2 9 heats).0 1 0 ≡ 5) ⊎ ((1 < 2) × (get_or heats 1 0 ≤ 2))))
update_heat-bounds_example = update_heat-bounds 2 9 heats 1 (omega arith) (omega arith)

panels-IsLayout_example : IsLayout 80 24
panels-IsLayout_example = panels-IsLayout 80 24 (omega arith) (omega arith)
