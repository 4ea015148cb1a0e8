-- ===== src/Library/Strings/Tests.antt =====
-- Concrete bytes, on which the laws are applied.
use cryptix_os.Library.Strings.{Bytes, memmove}
use cryptix_os.Library.Strings.Copy.{moved, memmove_lem}
use cryptix_os.Common.{◌≡◌, ◌||◌, ◌==◌, if◌then◌else◌}

-- "ab" at address 10, "ac" at address 20, zero elsewhere.
abbrev text : Bytes
text j = if j == 10 || j == 20 then 97 else if j == 11 then 98 else if j == 21 then 99 else 0

memmove_lem_example : memmove text 11 10 2 12 ≡ moved text 11 10 2 12
memmove_lem_example = memmove_lem text 11 10 2 12
