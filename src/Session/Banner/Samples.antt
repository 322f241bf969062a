-- ===== src/Session/Banner/Samples.antt =====
-- A banner of two lines, and three server versions.
use gooners.Base.{◌≤◌, ◌≡◌, refl, false, ◌∷◌, ◌++◌, nat_eq, list_eq, length, contains, Text, text}
use gooners.Session.Banner.{truncate_banner, detect_platform}
use gooners.Session.Banner.Line.{truncate_banner-one_line}

abbrev banner : Text
banner = text "  Welcome " ++ (10 ∷ text "to the host")

truncate_banner-one_line_example :
    (length (truncate_banner banner) ≤ 100) × (contains (truncate_banner banner) 10 ≡ false)
truncate_banner-one_line_example = truncate_banner-one_line banner

kept : truncate_banner banner ≡ text "Welcome"
unfolding truncate_banner
kept = refl

windows_before_linux : detect_platform (text "SSH-2.0-OpenSSH_for_Windows_9.5") ≡ text "windows"
unfolding detect_platform
windows_before_linux = refl
