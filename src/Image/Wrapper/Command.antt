-- ===== src/Image/Wrapper/Command.antt =====
-- The command on the last line of the init script.
use swarm_cracker.Prelude.{
  ℕ, List, [], ◌∷◌, ◌++◌, Option, none, some, ◌≡◌, refl, sym, All, ℤ, pos, negsuc, code_points,
  Bool-cases, inl, inr, false, not, ◌&&◌, ltb, if◌then◌else◌, nat_eq, ap, ◌∙◌, drop,
}
use mathlib.Core.List.{append_assoc}
use swarm_cracker.Image.Text.{Text, join, is_empty, text_eq}
use swarm_cracker.Image.Shell.{is_special, needs_shell_escaping, build_command_string}
use swarm_cracker.Image.Shell.Reader.{between, read, starts_specially}
use swarm_cracker.Image.Shell.RoundTrip.{
  IsArgument, read-word, space-Follows, build_command_string_lem,
}
use swarm_cracker.Image.Oci.{OciImageInfo, full_command, default_stop_signal}
use swarm_cracker.Image.Wrapper.{
  generate_wrapper_script, script_lines, exec_prefix, header_lines, mount_lines, env_lines,
  work_dir_lines, user_lines, tini_cmd, tini_args, bare_signal,
}

-- The last of two or more joined texts ends the whole, after a separator.
join-append_last :
    (t : Text) (ts : List Text) (sep last : Text)
    → (front : Text) × (join (t ∷ (ts ++ last ∷ [])) sep ≡ front ++ (sep ++ last))
unfolding join
join-append_last t [] sep last = (t, refl)
join-append_last t (u ∷ rest) sep last =
    let (front, e) = join-append_last u rest sep last in
    (
      t ++ (sep ++ front),
      rw (e, append_assoc t (sep ++ front) (sep ++ last), append_assoc sep front (sep ++ last))
          refl,
    )

-- A word that means nothing to the shell but itself.
pub record IsPlainWord (s : Text) : Type 0 where
  pub unquoted : needs_shell_escaping s ≡ false
  pub starts : (c : ℕ) × (cs : Text) × (s ≡ c ∷ cs) × (starts_specially c ≡ false)

read-plain_word :
    (s rest : Text) (ws : List Text)
    → IsPlainWord s
    → read between rest ≡ some ws
    → read between (s ++ 32 ∷ rest) ≡ some (s ∷ ws)
read-plain_word s rest ws plain later =
    let (c, cs, e, ordinary) = plain.starts in
    rw e (
      read-word c cs (32 ∷ rest) ws (rw e at plain.unquoted) ordinary (space-Follows rest ws later))

-- The variable that the user's lines set, for an image with a user, and the space after it.
abbrev pub user_word : Option OciImageInfo → Text
user_word none = []
user_word (some info) = if is_empty info.user then [] else code_points "$USER_CMD "

user_lines-user_word : (info : Option OciImageInfo) → (user_lines info).1 ≡ user_word info
unfolding user_lines
user_lines-user_word none = refl
user_lines-user_word (some info) = elim (Bool-cases (is_empty info.user)) [
  | inl nobody ↦ rw (nobody, user_lines) refl
  | inr someone ↦ rw (someone, user_lines) refl
]

-- The words of tini: with `-e` and the signal for an image that asks for one that is not the default,
-- and with `-g` and the grace period, if there is one.
abbrev signal_words : Option OciImageInfo → List Text
signal_words none = []
signal_words (some info) =
    if not (is_empty info.stop_signal) && not (text_eq info.stop_signal default_stop_signal)
    then code_points "-e" ∷ bare_signal info.stop_signal ∷ []
    else []

abbrev grace_words : (ℕ → Text) → ℤ → List Text
grace_words decimal (pos n) = if ltb 0 n then code_points "-g" ∷ decimal n ∷ [] else []
grace_words decimal (negsuc n) = []

abbrev pub tini_words : (ℕ → Text) → Option OciImageInfo → ℤ → List Text
tini_words decimal info grace_period =
    code_points "/sbin/tini"
    ∷ (signal_words info ++ (code_points "-s" ∷ grace_words decimal grace_period))

-- The signal that the image asks for is a plain word.
abbrev pub HasPlainSignal : Option OciImageInfo → Type 0
HasPlainSignal none = Unit
HasPlainSignal (some info) = IsPlainWord (bare_signal info.stop_signal)

plain_tini : IsPlainWord (code_points "/sbin/tini")
unfolding needs_shell_escaping is_special
plain_tini = record { unquoted = refl; starts = (_, _, refl, refl) }

plain_e : IsPlainWord (code_points "-e")
unfolding needs_shell_escaping is_special
plain_e = record { unquoted = refl; starts = (_, _, refl, refl) }

plain_s : IsPlainWord (code_points "-s")
unfolding needs_shell_escaping is_special
plain_s = record { unquoted = refl; starts = (_, _, refl, refl) }

plain_g : IsPlainWord (code_points "-g")
unfolding needs_shell_escaping is_special
plain_g = record { unquoted = refl; starts = (_, _, refl, refl) }

plain_dashes : IsPlainWord (code_points "--")
unfolding needs_shell_escaping is_special
plain_dashes = record { unquoted = refl; starts = (_, _, refl, refl) }

read-tini_cmd :
    (info : Option OciImageInfo) (rest : Text) (ws : List Text)
    → HasPlainSignal info
    → read between rest ≡ some ws
    → read between (tini_cmd info ++ 32 ∷ rest)
      ≡ some (code_points "/sbin/tini" ∷ (signal_words info ++ ws))
unfolding tini_cmd
read-tini_cmd none rest ws plain later =
    read-plain_word (code_points "/sbin/tini") rest ws plain_tini later
read-tini_cmd (some info) rest ws plain later =
    let asks =
      not (is_empty info.stop_signal) && not (text_eq info.stop_signal default_stop_signal) in
    elim (Bool-cases asks) [
      | inr default ↦
          rw (tini_cmd, default)
            (read-plain_word (code_points "/sbin/tini") rest ws plain_tini later)
      | inl special ↦
          rw (tini_cmd, special)
            (read-plain_word (code_points "/sbin/tini") _ _ plain_tini (
              read-plain_word (code_points "-e") _ _ plain_e
                (read-plain_word (bare_signal info.stop_signal) rest ws plain later)))
    ]

read-tini_args :
    (decimal : ℕ → Text) (grace_period : ℤ) (rest : Text) (ws : List Text)
    → ((n : ℕ) → IsPlainWord (decimal n))
    → read between rest ≡ some ws
    → read between (tini_args decimal grace_period ++ 32 ∷ rest)
      ≡ some (code_points "-s" ∷ (grace_words decimal grace_period ++ ws))
unfolding tini_args
read-tini_args decimal (negsuc n) rest ws plain later =
    read-plain_word (code_points "-s") rest ws plain_s later
read-tini_args decimal (pos n) rest ws plain later = elim (Bool-cases (ltb 0 n)) [
  | inr unlimited ↦
      rw (tini_args, unlimited) (read-plain_word (code_points "-s") rest ws plain_s later)
  | inl limited ↦
      rw (tini_args, limited)
        (read-plain_word (code_points "-s") _ _ plain_s (
          read-plain_word (code_points "-g") _ _ plain_g
            (read-plain_word (decimal n) rest ws (plain n) later)))
]

module _ (decimal : ℕ → Text) (info : Option OciImageInfo) (grace_period : ℤ) where
  -- The lines between the first and the last.
  abbrev later_lines : List Text
  later_lines =
      drop 1 (header_lines info)
      ++ (mount_lines
          ++ (env_lines info
              ++ (work_dir_lines info ++ ((user_lines info).0 ++ code_points "# Execute" ∷ []))))

  abbrev pub tini_line : Text
  tini_line =
      tini_cmd info
      ++ 32
        ∷ (tini_args decimal grace_period
            ++ 32 ∷ (code_points "--" ++ 32 ∷ build_command_string (full_command info)))

  -- The last line of the script.
  ends_in_line :
      (front : Text) × (generate_wrapper_script decimal info grace_period
        ≡ front ++ (10 ∷ (code_points "exec " ++ (user_word info ++ (32 ∷ tini_line)))))
  unfolding generate_wrapper_script script_lines header_lines exec_prefix
  ends_in_line =
      let last =
        exec_prefix decimal info grace_period ++ build_command_string (full_command info) in
      let (front, e) = join-append_last (code_points "#!/bin/sh") later_lines (10 ∷ []) last in
      let lines : script_lines decimal info grace_period
          ≡ code_points "#!/bin/sh" ∷ (later_lines ++ last ∷ []) =
        simp append_assoc in
      let same : last ≡ code_points "exec " ++ (user_word info ++ (32 ∷ tini_line)) =
        rw (← user_lines-user_word info) (simp append_assoc) in
      (front, rw (lines, e, same) refl)

  -- The last line of the init script is `exec`, the variable with the command that changes the user,
  -- for an image with a user, and then what the shell reads as tini with its arguments, a double hyphen,
  -- and the entrypoint and the command of the image, or `/bin/sh` for an image with neither. The quoting
  -- must cover each word of the command, and the signal of the image and the number must be plain words.
  pub generate_wrapper_script_command :
      (word : Text) (words : List Text)
      → full_command info ≡ word ∷ words
      → All IsArgument (word ∷ words)
      → HasPlainSignal info
      → ((n : ℕ) → IsPlainWord (decimal n))
      → (front : Text) × (line : Text) × (generate_wrapper_script decimal info grace_period
          ≡ front ++ (10 ∷ (code_points "exec " ++ (user_word info ++ (32 ∷ line)))))
        × (read between line
            ≡ some (tini_words decimal info grace_period ++ (code_points "--" ∷ full_command info)))
  generate_wrapper_script_command word words e h signal digits =
      let (front, ends) = ends_in_line in
      let command : read between (build_command_string (full_command info))
          ≡ some (full_command info) =
        rw e (build_command_string_lem word words h) in
      let dashes = read-plain_word (code_points "--") _ _ plain_dashes command in
      let args = read-tini_args decimal grace_period _ _ digits dashes in
      (
        front,
        tini_line,
        ends,
        read-tini_cmd info _ _ signal args
            ∙ ap (λ (ws : List Text). some (code_points "/sbin/tini" ∷ ws))
                (sym (
                  append_assoc (signal_words info)
                    (code_points "-s" ∷ grace_words decimal grace_period)
                    (code_points "--" ∷ full_command info))),
      )
