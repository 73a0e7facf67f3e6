-- ===== src/Schedule/ChildName.antt =====
-- `childScanName` (utils.go). The limit of a DNS label, 63 characters, is that of the comment above
-- the function.
pub mod Bounds
use diki_operator.Common.{ℕ, ◌-◌, ◌/◌, String, ◌<>◌, Option, none, some, leb, ltb}
use diki_operator.Common.{if◌then◌else◌}
use diki_operator.Common.Decimal.{count, format_nat, take_text}
use diki_operator.Api.Meta.{Time}

abbrev pub dns1035_label_max_length : ℕ
dns1035_label_max_length = 63

-- The seconds from Go's zero time to the Unix epoch.
abbrev pub unix_epoch : ℕ
unix_epoch = 62135596800

abbrev pub seconds : Time → ℕ
seconds t = t / 1000000000

-- `strconv.FormatInt(t.Unix(), 10)`
unfoldable pub format_unix : Time → String
format_unix t =
    if ltb (seconds t) unix_epoch
    then "-" <> format_nat (unix_epoch - seconds t)
    else format_nat (seconds t - unix_epoch)

unfoldable pub suffix : Time → String
suffix t = "-" <> format_unix t

-- A negative `maxParentLen` would be a slice out of range: `none` is that panic.
unfoldable pub child_scan_name : String → Time → Option String
child_scan_name parent_name t =
    if leb (count (suffix t)) dns1035_label_max_length
    then (let max_parent_len : ℕ = dns1035_label_max_length - count (suffix t) in
        let parent : String =
          if ltb max_parent_len (count parent_name)
          then take_text max_parent_len parent_name
          else parent_name in
        some (parent <> suffix t))
    else none
