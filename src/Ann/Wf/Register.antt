-- ===== src/Ann/Wf/Register.antt =====
-- The assignments of PASS, USER and CAP keep the invariant, and so does NICK.
use mathlib.Core.Option
use ft_irc.Prelude.{
  ℕ, ◌≡◌, ◌≢◌, refl, sym, ◌∙◌, ap, Bool, true, false, not, ◌||◌, some, List, [], ◌∷◌, arith,
  Bool-cases, Option-cases, inl, inr, ◌==◌, if◌then◌else◌, ltb, length, get_elem?,
}
use ft_irc.Text.{Text, to_lower, text_eq_iff, only_bytes}
use ft_irc.Ann.State.{Cli, Server, find_cli, update_cli}
use ft_irc.Ann.Exec.{
  Keeps, Post, modify, Keeps-bind-gets, Keeps-bind-deref, Keeps-bind, Keeps-if, Post-then,
}
use ft_irc.Ann.Replies.{set_cli, arg, author, prepare_resp, append_resp}
use ft_irc.Ann.Commands.Common.{arg_is_empty}
use ft_irc.Ann.Commands.Register.{
  exec_nick, take_nick, welcome_if_complete, nick_in_use, nick_bytes,
}
use ft_irc.Ann.Tables.{find_cli-update_cli, update_cli-ClisDiffer}
use ft_irc.Ann.Keeps.{KeptByReplies, Keeps-author, Keeps-reply}
use ft_irc.Ann.Keeps.Register.{RegisterLaws, Keeps-welcome}
use ft_irc.Ann.Wf.{IsWf, IsLive, NicksDiffer}
use ft_irc.Ann.Wf.Prims.{set_cli-IsWf}

pub replies-IsWf : KeptByReplies IsWf
unfolding prepare_resp
replies-IsWf = record {
  resp = λ p msg.
      set_cli-IsWf p (append_resp msg)
        (record { keys = record { addr = λ c. refl; fd = λ c. refl }; nick = λ c. refl });
}

pub set_registration-IsWf :
    (p : ℕ) (ok cap : Cli → Bool) (u r : Cli → Text)
    → Keeps IsWf (
        set_cli p
          (λ x. record x { pass_ok = ok x; cap_in_progress = cap x; u_name = u x; r_name = r x }))
set_registration-IsWf p ok cap u r =
    set_cli-IsWf p _
      (record { keys = record { addr = λ c. refl; fd = λ c. refl }; nick = λ c. refl })

pub modify_fds-IsWf :
    (f : Server → List ℕ) → Keeps IsWf (modify (λ s. record s { fds_to_erase = f s }))
unfolding modify
modify_fds-IsWf f = record {
  kept = λ s w. record {
    clis_differ = w.clis_differ;
    names_differ = w.names_differ;
    nicks_differ = w.nicks_differ;
    chs_sound = w.chs_sound;
  };
}

-- A nickname that is free belongs to no client, in upper or lower case.
pub free_nick :
    (nick : Text) (q : ℕ) (d : Cli) (l : List Cli)
    → nick_in_use nick l ≡ false
    → find_cli q l ≡ some d
    → to_lower nick ≢ to_lower d.nick
unfolding nick_in_use find_cli
free_nick nick q d [] free h = cc
free_nick nick q d (c ∷ l) free h = λ e.
    ground
      (arith, text_eq_iff (to_lower nick) (to_lower c.nick), free_nick nick q d l (ground arith))

abbrev rename : Text → Cli → Cli
rename nick x = record x { nick = nick }

module _ (nick : Text) (named : nick ≢ []) (s : Server) (w : IsWf s) where
  find_cli-rename :
      (p q : ℕ)
      → find_cli q (update_cli p (rename nick) s.clis)
        ≡ (if p == q then Option.map (rename nick) (find_cli q s.clis) else find_cli q s.clis)
  find_cli-rename p q =
      find_cli-update_cli (rename nick) (record { addr = λ c. refl; fd = λ c. refl }) p q s.clis

  IsLive-rename : (p q : ℕ) → IsLive q s.clis → IsLive q (update_cli p (rename nick) s.clis)
  IsLive-rename p q (d, e, old) = (
    (if p == q then rename nick d else d),
    ground (arith, find_cli-rename p q),
    ground (arith, named),
  )

  NicksDiffer-rename :
      (p : ℕ) → nick_in_use nick s.clis ≡ false → NicksDiffer (update_cli p (rename nick) s.clis)
  NicksDiffer-rename p free q r c d hc hd there low = elim (Bool-cases (p == q)) [
    | inl e ↦ elim (Bool-cases (p == r)) [
      | inl g ↦ ground arith
      | inr g ↦ absurd (
          free_nick nick r d s.clis free (ground (arith, find_cli-rename p r))
            (ap to_lower (nick_of q c hc e) ∙ low))
    ]
    | inr e ↦ elim (Bool-cases (p == r)) [
      | inl g ↦ absurd (
          free_nick nick q c s.clis free (ground (arith, find_cli-rename p q))
            (ap to_lower (nick_of r d hd g) ∙ sym low))
      | inr g ↦
          w.nicks_differ q r c d (ground (arith, find_cli-rename p q))
            (ground (arith, find_cli-rename p r)) there low
    ]
  ]
    where
      nick_of :
          (t : ℕ) (x : Cli)
          → find_cli t (update_cli p (rename nick) s.clis) ≡ some x
          → (p == t) ≡ true
          → nick ≡ x.nick
      nick_of t x hx e = elim (Option-cases (find_cli t s.clis)) [
        | inl z ↦ absurd (ground (arith, find_cli-rename p t))
        | inr (y, z) ↦ ground (arith, find_cli-rename p t)
      ]

  pub rename-IsWf :
      (p : ℕ) → nick_in_use nick s.clis ≡ false → Post IsWf (set_cli p (rename nick) s)
  unfolding set_cli
  rename-IsWf p free = elim (Option-cases (find_cli p s.clis)) [
    | inl e ↦ rw (e, set_cli) tt
    | inr (c, e) ↦
        rw (e, set_cli)
          (record {
            clis_differ =
                update_cli-ClisDiffer p (rename nick) s.clis
                  (record { addr = λ x. refl; fd = λ x. refl }) w.clis_differ;
            names_differ = w.names_differ;
            nicks_differ = NicksDiffer-rename p free;
            chs_sound = λ n ch h. record {
              members = λ q m. IsLive-rename p q ((w.chs_sound n ch h).members q m);
              operators = (w.chs_sound n ch h).operators;
            };
          })
  ]

pub register_laws-IsWf : RegisterLaws IsWf
register_laws-IsWf = record {
  replies = replies-IsWf;
  registration = set_registration-IsWf;
  fds = modify_fds-IsWf;
}

given_nick :
    (ar : List Text) (nick : Text)
    → (ltb (length ar) 2 || arg_is_empty ar 1) ≡ false
    → get_elem? ar 1 ≡ some nick
    → nick ≢ []
unfolding arg_is_empty
given_nick (a ∷ b ∷ ar) nick e h = λ z. ground arith
given_nick ar nick e h = λ z. ground arith

take_nick-IsWf :
    (nick : Text) (c : Cli) (s : Server)
    → IsWf s
    → nick ≢ []
    → Post IsWf (take_nick nick c (nick_in_use nick s.clis) s)
unfolding take_nick
take_nick-IsWf nick c s w named =
    elim (Bool-cases (ltb 9 (length nick) || not (only_bytes nick_bytes nick))) [
      | inl long ↦ rw long ((Keeps-reply replies-IsWf _).kept s w)
      | inr fits ↦ rw fits (elim (Bool-cases (nick_in_use nick s.clis)) [
        | inl used ↦ rw used ((Keeps-reply replies-IsWf _).kept s w)
        | inr free ↦ rw free (
            Post-then (set_cli c.addr (rename nick)) welcome_if_complete s
              (rename-IsWf nick named s w c.addr free) (Keeps-welcome register_laws-IsWf))
      ])
    ]

-- NICK gives no name that another client has.
pub exec_nick-IsWf : (ar : List Text) → Keeps IsWf (exec_nick ar)
unfolding exec_nick arg
exec_nick-IsWf ar =
    Keeps-if _ _ _ (λ _. Keeps-reply replies-IsWf _)
      λ e. Keeps-bind-deref (get_elem? ar 1) _ λ nick h. Keeps-bind author _ Keeps-author λ c.
        Keeps-bind-gets (λ s. nick_in_use nick s.clis) (take_nick nick c)
          λ s w. take_nick-IsWf nick c s w (given_nick ar nick e h)
