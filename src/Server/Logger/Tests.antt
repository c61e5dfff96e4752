-- ===== src/Server/Logger/Tests.antt =====
-- Runs of the logger.
use hush_go.Base.{[], ◌++◌, ◌≡◌, refl, str_eq}
use hush_go.Base.Text.{codes}
use hush_go.Server.Logger.{close_at, parse_level, color_for_level, color_write, reset, dim, red}

line_read : parse_level (codes "[INF] hi") ≡ (codes "INF", codes "hi")
unfolding parse_level close_at
line_read = refl

-- A line of the server's error level, under a tag.
line_shown :
    (color_write (codes "crud") (codes "21:30:01") (codes "[ERR] lost\n")).0
    ≡ dim
      ++ codes "21:30:01"
      ++ reset
      ++ codes " ["
      ++ dim
      ++ codes "crud"
      ++ reset
      ++ codes "] "
      ++ red
      ++ codes "[ERR]"
      ++ reset
      ++ codes " lost\n"
unfolding parse_level close_at color_for_level color_write str_eq
line_shown = refl

-- A line without a level is shown whole, in no colour.
line_plain :
    (color_write [] (codes "21:30:01") (codes "lost")).0
    ≡ dim ++ codes "21:30:01" ++ reset ++ codes " " ++ reset ++ codes "[]" ++ reset ++ codes " lost"
unfolding parse_level close_at color_for_level color_write str_eq
line_plain = refl
