-- ===== src/DeviceLabel.antt =====
-- `device_label_from_user_agent` of app/services/session.py. Each pattern is a text, or two texts
-- of which either may occur.
use movie_api.Shared.{
  String, Bool, false, ◌||◌, Option, none, some, List, [], ◌∷◌, is_some, if◌then◌else◌, str_eq,
}
use text.Mathlib.Text.{find?}
use Prim.Native.String.{◌++◌}

-- `_OS_PATTERNS`: the alternatives of each pattern, and its name
abbrev pub os_patterns : List (List String × String)
os_patterns =
    ("iPhone" ∷ "iPad" ∷ [], "iOS")
    ∷ ("Android" ∷ [], "Android")
    ∷ ("Mac OS X" ∷ [], "macOS")
    ∷ ("Windows" ∷ [], "Windows")
    ∷ ("Linux" ∷ [], "Linux")
    ∷ []

-- `_BROWSER_PATTERNS`
abbrev pub browser_patterns : List (List String × String)
browser_patterns =
    ("Edg/" ∷ [], "Edge")
    ∷ ("OPR/" ∷ "Opera" ∷ [], "Opera")
    ∷ ("Chrome/" ∷ [], "Chrome")
    ∷ ("CriOS/" ∷ [], "Chrome")
    ∷ ("FxiOS/" ∷ [], "Firefox")
    ∷ ("Firefox/" ∷ [], "Firefox")
    ∷ ("Safari/" ∷ [], "Safari")
    ∷ []

-- `pattern.search(user_agent)`
matches : List String → String → Bool
matches [] agent = false
matches (alternative ∷ rest) agent = is_some (find? agent alternative) || matches rest agent

-- `next((name for pattern, name in patterns if …), None)`
name_of : List (List String × String) → String → Option String
unfolding matches
name_of [] agent = none
name_of ((pattern, name) ∷ rest) agent =
    if matches pattern agent then some name else name_of rest agent

-- The label of a browser and a system that may be unknown.
label : Option String → Option String → String
label (some browser) (some os) = browser ++ " on " ++ os
label (some browser) none = browser
label none (some os) = os
label none none = "Unknown device"

unfoldable pub device_label_from_user_agent : Option String → String
unfolding name_of label
device_label_from_user_agent none = "Unknown device"
device_label_from_user_agent (some agent) =
    if str_eq agent ""
    then "Unknown device"
    else label (name_of browser_patterns agent) (name_of os_patterns agent)
