-- ===== src/Tests/Interface.antt =====
-- The user interface's settings in one environment.
use selkies_core.Prelude.{Option, some, true, Text, codes}
use selkies_core.Config.{config_default}
use selkies_core.Ui.{from_env}
use selkies_core.Ui.Ranges.{InOrder, OnlyJpeg, from_env-InOrder}

-- Every variable is set to the same range, written backwards.
abbrev backwards : Text → Option Text
backwards key = some (codes "90-20|locked")

from_env-InOrder_example :
    InOrder (from_env backwards (config_default true)).video.framerate
    × InOrder (from_env backwards (config_default true)).audio.bitrate
    × OnlyJpeg (from_env backwards (config_default true)).video.encoder
from_env-InOrder_example = from_env-InOrder backwards (config_default true)
