-- ===== src/Adapters.antt =====
-- internal/infrastructure/adapters: the detection of the operating system, in os_detector.go and
-- os_detector_k8s.go, and the checks around commands and paths, in command_executor.go and
-- filesystem.go. What a command, a file or the Kubernetes API answers is a parameter. A line of
-- os-release is below the limit of the scanner.
pub mod Laws
use multi_network_interface.Prelude.{
  Bool, true, false, ◌&&◌, ◌||◌, not, Option, none, some, List, [], ◌∷◌, ◌++◌, ◌==◌, all,
  if◌then◌else◌,
}
use multi_network_interface.Prelude.Text.{
  Text, text, eqb, is_empty, trim_space, to_lower, contains, has_prefix, split_on,
}
use multi_network_interface.Prelude.Text.Words.{cut_at, join_with}
use mathlib.Core.List.{reverse}
use multi_network_interface.Errors.{
  GoError, plain, wrapped, Result, ok, err, ◌>>=◌, new_system_error, new_timeout_error,
  new_validation_error,
}
use multi_network_interface.Host.Queries.{newline}
use multi_network_interface.Configure.{OsType, ubuntu, rhel}
use multi_network_interface.Controller.Objects.{Dict, find, label}
use multi_network_interface.Agent.{clean_hostname_domain_suffix}

drop_quotes : Text → Text
drop_quotes [] = []
drop_quotes (c ∷ s) = let rest = drop_quotes s in if c == b'"' then rest else c ∷ s

-- `strings.Trim` of double quotes.
unfoldable pub trim_quotes : Text → Text
unfolding drop_quotes
trim_quotes s = reverse (drop_quotes (reverse (drop_quotes s)))

-- The loop of `parseOSRelease`: a key that comes again replaces the one before it.
read_line : Text → Dict Text → Dict Text
unfolding trim_quotes
read_line line info = elim (cut_at b'=' line).1 [
  | none ↦ info
  | some value ↦ (trim_space (cut_at b'=' line).0, trim_quotes (trim_space value)) ∷ info
]

read_lines : List Text → Dict Text → Dict Text
unfolding read_line
read_lines [] info = info
read_lines (line ∷ lines) info = read_lines lines (read_line line info)

-- `parseOSRelease`, of the content of the file.
unfoldable pub parse_os_release : Text → Dict Text
unfolding read_lines
parse_os_release content = read_lines (split_on newline content) []

os_of_ids : Text → Text → Result OsType
os_of_ids id id_like =
    if eqb id (text "ubuntu")
    then ok ubuntu
    else if eqb id (text "rhel")
        || (eqb id (text "centos")
            || (eqb id (text "rocky")
                || (eqb id (text "almalinux")
                    || (eqb id (text "oracle")
                        || (contains id_like (text "rhel") || contains id_like (text "fedora"))))))
    then ok rhel
    else err (
        new_system_error
          (text "unsupported OS type. ID: '"
            ++ (id ++ (text "', ID_LIKE: '" ++ (id_like ++ text "'"))))
          GoError.nil)

os_of_release : Dict Text → Result OsType
unfolding os_of_ids
os_of_release info = elim (find (text "ID") info) [
  | none ↦ err (
      new_system_error (text "OS detection failed: no ID field in /etc/os-release file")
        GoError.nil)
  | some id ↦ os_of_ids id (label (text "ID_LIKE") info)
]

-- `DetectOS` of the RealOSDetector, for what reading /host/etc/os-release returns.
unfoldable pub detect_os_of_file : Result Text → Result OsType
unfolding os_of_release parse_os_release
detect_os_of_file (err e) =
    err (new_system_error (text "OS detection failed: cannot read /etc/os-release file") e)
detect_os_of_file (ok content) = os_of_release (parse_os_release content)

-- The node that the K8sOSDetector asks for.
unfoldable pub detector_node : (Text → Text) → Result Text → Result Text
detector_node getenv hostname =
    if is_empty (trim_space (getenv (text "NODE_NAME")))
    then elim hostname [
      | err e ↦ err (new_system_error (text "failed to obtain node name") e)
      | ok h ↦ ok (clean_hostname_domain_suffix h)
    ]
    else ok (getenv (text "NODE_NAME"))

-- What the K8sOSDetector makes of an image.
unfoldable pub os_of_image : Text → Result OsType
os_of_image image =
    if contains (to_lower image) (text "ubuntu")
    then ok ubuntu
    else if contains (to_lower image) (text "red hat")
        || (contains (to_lower image) (text "rhel")
            || (contains (to_lower image) (text "centos")
                || (contains (to_lower image) (text "rocky")
                    || (contains (to_lower image) (text "alma")
                        || contains (to_lower image) (text "oracle")))))
    then ok rhel
    else err
        (new_system_error (text "unsupported OS type from Node osImage: " ++ image) GoError.nil)

os_of_answer : Result Text → Result OsType
unfolding os_of_image
os_of_answer (err e) = err (new_system_error (text "failed to query Node from Kubernetes") e)
os_of_answer (ok image) = os_of_image image

-- `DetectOS` of the K8sOSDetector; `os_image` gets the image of a node, empty if it has none.
unfoldable pub detect_os_of_node :
    (Text → Text) → Result Text → (Text → Result Text) → Result OsType
unfolding detector_node os_of_answer
detect_os_of_node getenv hostname os_image =
    detector_node getenv hostname >>= λ node. os_of_answer (os_image node)

-- `strings.ContainsAny`.
has_any : Text → Text → Bool
has_any chars [] = false
has_any chars (c ∷ s) = contains chars (c ∷ []) || has_any chars s

-- `isSafeCommand` and `isSafeArg`.
unfoldable pub is_safe_command : Text → Bool
unfolding has_any
is_safe_command cmd =
    not (is_empty cmd) && not (has_any (text " ;|&><`$" ++ (newline ∷ 13 ∷ 9 ∷ [])) cmd)

unfoldable pub is_safe_arg : Text → Bool
unfolding has_any
is_safe_arg arg = not (has_any (text "`$" ++ (newline ∷ 13 ∷ [])) arg)

-- `secretKeyLike`.
unfoldable pub secret_key_like : Text → Bool
secret_key_like v =
    contains (to_lower v) (text "pass")
    || (contains (to_lower v) (text "token")
        || (contains (to_lower v) (text "secret")
            || (contains (to_lower v) (text "key")
                || (contains (to_lower v) (text "cred")
                    || contains (to_lower v) (text "authorization")))))

-- `maskArgs`, behind an argument that is like a key, or is not.
mask_behind : Bool → List Text → List Text
mask_behind after_key [] = []
mask_behind after_key (v ∷ args) =
    (if secret_key_like v || after_key then text "***" else v)
    ∷ mask_behind (secret_key_like v) args

unfoldable pub mask_args : List Text → List Text
unfolding mask_behind
mask_args args = mask_behind false args

-- `%v` of a list of strings.
shown_args : List Text → Text
shown_args args = text "[" ++ (join_with (text " ") args ++ text "]")

-- A command that is run: what it prints, or the error of `Run` with what it printed to stderr.
module _ (run : Text → List Text → Result Text) where
  ran : Text → List Text → Result Text → Result Text
  unfolding shown_args mask_args
  ran command args (ok out) = ok out
  ran command args (err e) = err (
      new_system_error
        (text "command execution failed: "
          ++ (command ++ (text " " ++ shown_args (mask_args args))))
        e)

  -- `Execute` of the RealCommandExecutor.
  unfoldable pub execute_command : Text → List Text → Result Text
  unfolding ran
  execute_command command args =
      if not (is_safe_command command)
      then err (new_validation_error (text "unsafe command rejected: " ++ command) GoError.nil)
      else if not (all is_safe_arg args)
      then err (new_validation_error (text "unsafe argument rejected") GoError.nil)
      else ran command args (run command args)

  timed_out : Bool → Text → Text → List Text → Result Text → Result Text
  unfolding shown_args
  timed_out late timeout command args (ok out) = ok out
  timed_out late timeout command args (err e) =
      if late
      then err (
          new_timeout_error (
            text "command execution timeout: "
            ++ (command
                ++ (text " "
                    ++ (shown_args args ++ (text " (timeout: " ++ (timeout ++ text ")")))))))
      else err e

  -- `ExecuteWithTimeout`, where the context is past its deadline, or is not; with the text of the
  -- timeout.
  unfoldable pub execute_with_timeout : Bool → Text → Text → List Text → Result Text
  unfolding timed_out
  execute_with_timeout late timeout command args =
      timed_out late timeout command args (execute_command command args)

-- `isSafeConfigPath`; `clean` is `filepath.Clean`.
unfoldable pub is_safe_config_path : (Text → Text) → Text → Bool
is_safe_config_path clean p =
    has_prefix p (text "/")
    && (not (contains (clean p) (text ".."))
        && (has_prefix (clean p) (text "/etc/netplan")
            || (has_prefix (clean p) (text "/etc/sysconfig/network-scripts")
                || (has_prefix (clean p) (text "/etc/NetworkManager/system-connections")
                    || (has_prefix (clean p) (text "/etc/systemd/network")
                        || has_prefix (clean p) (text "/var/lib/multinic/backups"))))))
