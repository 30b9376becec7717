-- ===== src/Compliance/Frameworks/Tests.antt =====
-- The witness of the property of the built-in controls.
use sentora.Prelude.{All}
use sentora.Compliance.Frameworks.Controls.{IsRegistered, get_framework_controls-IsRegistered}
use sentora.Compliance.Frameworks.Registry.{get_framework_controls}

get_framework_controls-IsRegistered_example :
    All (IsRegistered "dora") (get_framework_controls "dora")
get_framework_controls-IsRegistered_example = get_framework_controls-IsRegistered "dora"
