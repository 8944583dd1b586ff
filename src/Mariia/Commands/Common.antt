-- ===== src/Mariia/Commands/Common.antt =====
-- What several commands of project/mariia/sources/cmd repeat.
use ft_irc.Prelude.{ℕ, Bool, true, ◌||◌, List, ◌==◌, if◌then◌else◌}
use ft_irc.Text.{Text}
use ft_irc.Mariia.Exec.{M, pure, first_byte, ◌>>=◌}
use ft_irc.Mariia.Words.{merge_tokens}

abbrev pub max_targets : ℕ
max_targets = 10

abbrev pub max_channels : ℕ
max_channels = 9

-- `name.at(0) == '#' || name.at(0) == '&'`
unfoldable pub is_channel_name : Text → M Bool
is_channel_name name = do c ← first_byte name; pure (c == b'#' || c == b'&')

-- the text that begins with the first of these tokens: all of them behind a colon, or that token
unfoldable pub trailing : Text → List Text → M Text
trailing first tokens = do
  c ← first_byte first
  pure (if c == b':' then merge_tokens tokens true else first)
