-- ===== src/Cli.antt =====
-- The `server` and `report` commands of src/main.rs, and the choice of the format in
-- src/utils/export.rs and src/utils/import.rs. A path is the list of its characters. The file system
-- and the formats are libraries, so that what they give is an argument; an export that the file
-- system refuses is left out.
pub mod Files
pub mod Servers
use speed_cli.Base.{
  ℕ, ◌≡◌, ◌==◌, ◌&&◌, ◌||◌, Bool, true, false, Option, none, some, List, [], ◌∷◌, ◌++◌, ◌⊎◌, inl,
  inr, if◌then◌else◌, not,
}
use speed_cli.Base.Outcome.{Result, ok, err}
use speed_cli.Testing.Config.{
  default_tcp_port, default_udp_port, default_http_port, default_https_port, unwrap_or,
}

abbrev pub FilePath : Type 0
FilePath = List ℕ

-- The options of the `server` command.
pub record ServerOptions : Type 0 where
  pub all_modes : Bool
  pub use_tcp : Bool
  pub use_udp : Bool
  pub use_http : Bool
  pub use_https : Bool
  pub tcp_port : Option ℕ
  pub udp_port : Option ℕ
  pub http_port : Option ℕ
  pub https_port : Option ℕ
  pub cert : Option FilePath
  pub key : Option FilePath

-- A server that is spawned, with its port, and for HTTPS the certificate and the key.
pub data Spawned : Type 0 where
  tcp_server : (port : ℕ) → Spawned
  udp_server : (port : ℕ) → Spawned
  http_server : (port : ℕ) → Spawned
  https_server : (port : ℕ) → (tls_config : Option (FilePath × FilePath)) → Spawned

pub data ServerError : Type 0 where
  no_server : ServerError
  missing_files : ServerError
  one_without_other : ServerError

abbrev pub spawn_if : Bool → Spawned → List Spawned
spawn_if true s = s ∷ []
spawn_if false s = []

module _ (exists : FilePath → Bool) where
  -- The `match` on the certificate and the key.
  unfoldable pub tls_config_of :
      Option FilePath → Option FilePath → ServerError ⊎ Option (FilePath × FilePath)
  tls_config_of (some cert) (some key) =
      if not (exists cert) || not (exists key) then inl missing_files else inr (some (cert, key))
  tls_config_of none none = inr none
  tls_config_of _ _ = inl one_without_other

  -- The servers that run. After an error the program ends, and with it those spawned before.
  unfoldable pub server_command : ServerOptions → ServerError ⊎ List Spawned
  unfolding tls_config_of
  server_command o =
      let enable_tcp = o.use_tcp || o.all_modes in
      let enable_udp = o.use_udp || o.all_modes in
      let enable_http = o.use_http || o.all_modes in
      let enable_https = o.use_https || o.all_modes in
      let spawned =
        spawn_if enable_tcp (tcp_server (unwrap_or o.tcp_port default_tcp_port))
        ++ (spawn_if enable_udp (udp_server (unwrap_or o.udp_port default_udp_port))
            ++ spawn_if enable_http (http_server (unwrap_or o.http_port default_http_port))) in
      let with_https : ServerError ⊎ List Spawned = elim (tls_config_of o.cert o.key) [
        | inl e ↦ inl e
        | inr tls ↦
            inr (spawned ++ (https_server (unwrap_or o.https_port default_https_port) tls ∷ []))
      ] in
      if not enable_tcp && not enable_udp && not enable_http && not enable_https
      then inl no_server
      else if enable_https
      then with_https
      else inr spawned

abbrev pub json : FilePath
json = b'j' ∷ b's' ∷ b'o' ∷ b'n' ∷ []

abbrev pub cbor : FilePath
cbor = b'c' ∷ b'b' ∷ b'o' ∷ b'r' ∷ []

abbrev pub html : FilePath
html = b'h' ∷ b't' ∷ b'm' ∷ b'l' ∷ []

-- `==` on strings.
abbrev pub same_text : FilePath → FilePath → Bool
same_text [] [] = true
same_text (x ∷ xs) (y ∷ ys) = (x == y) && same_text xs ys
same_text _ _ = false

-- `serde_json`, `ciborium` and the renderer. A report may have no form in a format.
pub record Formats (R : Type 0) : Type 0 where
  pub to_json : R → Result (List ℕ)
  pub to_cbor : R → Result (List ℕ)
  pub to_html : R → List ℕ
  pub from_json : List ℕ → Result R
  pub from_cbor : List ℕ → Result R

pub data ReportError : Type 0 where
  no_file : ReportError
  not_a_file : ReportError
  import_failed : List ℕ → ReportError
  is_html : ReportError
  no_extension : ReportError

-- How the `report` command ends: with an error, or the report printed or exported, or a message.
pub data ReportOutcome (R : Type 0) : Type 0 where
  fails : ReportError → ReportOutcome R
  prints : R → ReportOutcome R
  exports : FilePath → (content : List ℕ) → ReportOutcome R
  complains : List ℕ → ReportOutcome R

module _ {R : Type 0} (f : Formats R) where
  -- The content that `export_report` writes to a file with an extension, or the error of the format.
  unfoldable pub export_report : R → Option FilePath → Result (List ℕ)
  export_report r none = f.to_json r
  export_report r (some extension) =
      if same_text extension html
      then ok (f.to_html r)
      else if same_text extension json
      then f.to_json r
      else if same_text extension cbor
      then f.to_cbor r
      else f.to_json r

  -- The two arms for a known format.
  unfoldable pub show_report : Result R → Option FilePath → ReportOutcome R
  show_report (err message) export_html = fails (import_failed message)
  show_report (ok r) none = prints r
  show_report (ok r) (some html_file) = exports html_file (f.to_html r)

  -- The arm of any other extension.
  unfoldable pub guess_report : Result R → ReportOutcome R
  guess_report (ok r) = prints r
  guess_report (err message) = complains message

  -- The `report` command on a path, with what the file system says of it.
  unfoldable pub report_command :
      (exists is_file : Bool)
      → Option FilePath
      → (content : List ℕ) → (export_html : Option FilePath) → ReportOutcome R
  unfolding show_report guess_report
  report_command false is_file extension content export_html = fails no_file
  report_command true false extension content export_html = fails not_a_file
  report_command true true none content export_html = fails no_extension
  report_command true true (some extension) content export_html =
      if same_text extension json
      then show_report (f.from_json content) export_html
      else if same_text extension cbor
      then show_report (f.from_cbor content) export_html
      else if same_text extension html
      then fails is_html
      else guess_report (f.from_json content)
