-- ===== src/Ann/Tests/Parse.antt =====
-- The theorems on splitting, at sample texts.
use ft_irc.Prelude.{◌≡◌, refl, [], ◌∷◌, ◌++◌}
use ft_irc.Text.{txt}
use ft_irc.Ann.Parse.{split_arg_to_subargs, split_buf}
use ft_irc.Ann.Parse.Fields.{fields, non_empty, join, split_arg_to_subargs-fields, split-join}
use ft_irc.Ann.Parse.Stream.{then_split, encode, split_buf-append, split_buf-encode}
use ft_irc.Ann.Tests.Sample.{run_events, line}

split_arg_to_subargs-fields_example :
    split_arg_to_subargs (txt "a,,b") ≡ non_empty (fields b',' (txt "a,,b"))
split_arg_to_subargs-fields_example = split_arg_to_subargs-fields (txt "a,,b")

-- what the specification gives there
fields_test : non_empty (fields b',' (txt "a,,b")) ≡ txt "a" ∷ txt "b" ∷ []
unfolding fields non_empty run_events
fields_test = refl

split-join_example :
    split_arg_to_subargs (join b',' (txt "#a" ∷ txt "#b" ∷ [])) ≡ txt "#a" ∷ txt "#b" ∷ []
unfolding run_events
split-join_example = split-join (txt "#a" ∷ txt "#b" ∷ []) ((λ e. cc, refl), ((λ e. cc, refl), tt))

split_buf-append_example :
    split_buf (line "PING" ++ txt "NI" ++ line "CK al")
    ≡ then_split
        (split_buf (line "PING" ++ txt "NI"))
        (split_buf ((split_buf (line "PING" ++ txt "NI")).1 ++ line "CK al"))
unfolding run_events
split_buf-append_example = split_buf-append (line "PING" ++ txt "NI") (line "CK al") refl refl refl

split_buf-encode_example :
    split_buf (encode (txt "PING" ∷ txt "QUIT" ∷ []) ++ txt "NI")
    ≡ (txt "PING" ∷ txt "QUIT" ∷ [], txt "NI")
unfolding run_events
split_buf-encode_example =
    split_buf-encode (txt "PING") (txt "QUIT" ∷ []) (txt "NI")
      ((λ e. cc, refl), ((λ e. cc, refl), tt)) refl
