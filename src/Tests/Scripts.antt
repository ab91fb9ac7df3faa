-- ===== src/Tests/Scripts.antt =====
-- The theorems about the init script, on an image with an entrypoint that has to be quoted.
use swarm_cracker.Prelude.{ℕ, ◌≡◌, refl, ◌++◌, [], ◌∷◌, some, inl, inr, code_points, pos}
use swarm_cracker.Image.Text.{Text}
use swarm_cracker.Image.Shell.{is_special, build_command_string, needs_shell_escaping, is_quoted}
use swarm_cracker.Image.Shell.Reader.{between, read}
use swarm_cracker.Image.Shell.RoundTrip.{IsArgument, build_command_string_lem}
use swarm_cracker.Image.Oci.{OciImageInfo, full_command}
use swarm_cracker.Image.Wrapper.{generate_wrapper_script}
use swarm_cracker.Image.Wrapper.Command.{
  IsPlainWord, HasPlainSignal, user_word, tini_words, generate_wrapper_script_command,
}

abbrev echo : Text
echo = code_points "echo"

abbrev message : Text
message = code_points "it's $HOME"

echo-IsArgument : IsArgument echo
unfolding needs_shell_escaping is_quoted is_special
echo-IsArgument = record { nonempty = refl; unquoted = refl; ordinary_start = λ c cs e. inr (cc e) }

message-IsArgument : IsArgument message
unfolding needs_shell_escaping is_quoted is_special
message-IsArgument = record {
  nonempty = refl;
  unquoted = refl;
  ordinary_start = λ c cs e. inl refl;
}

build_command_string_lem_example :
    read between (build_command_string (echo ∷ message ∷ [])) ≡ some (echo ∷ message ∷ [])
build_command_string_lem_example =
    build_command_string_lem echo (message ∷ []) (echo-IsArgument, (message-IsArgument, tt))

abbrev info : OciImageInfo
info = record {
  entrypoint = echo ∷ [];
  cmd = message ∷ [];
  env = code_points "PATH=/bin" ∷ [];
  user = code_points "app";
  work_dir = code_points "/srv";
  stop_signal = code_points "SIGTERM";
  os = code_points "linux";
  architecture = code_points "amd64";
  image_ref = code_points "app:1";
}

abbrev five : ℕ → Text
five n = code_points "5"

five-IsPlainWord : (n : ℕ) → IsPlainWord (five n)
unfolding needs_shell_escaping is_special
five-IsPlainWord n = record { unquoted = refl; starts = (_, _, refl, refl) }

info-HasPlainSignal : HasPlainSignal (some info)
unfolding needs_shell_escaping is_special
info-HasPlainSignal = record { unquoted = refl; starts = (_, _, refl, refl) }

generate_wrapper_script_command_example :
    (front : Text) × (line : Text) × (generate_wrapper_script five (some info) (pos 5)
      ≡ front ++ (10 ∷ (code_points "exec " ++ (user_word (some info) ++ (32 ∷ line)))))
    × (read between line
        ≡ some
            (tini_words five (some info) (pos 5) ++ (code_points "--" ∷ full_command (some info))))
unfolding full_command
generate_wrapper_script_command_example =
    generate_wrapper_script_command five (some info) (pos 5) echo (message ∷ []) refl
      (echo-IsArgument, (message-IsArgument, tt)) info-HasPlainSignal five-IsPlainWord
