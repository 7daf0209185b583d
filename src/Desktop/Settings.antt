-- ===== src/Desktop/Settings.antt =====
-- The settings of client_qt5/mainwindow.cpp: what the window loads at its start, hands to the worker,
-- and saves at its end, and what client_essential/Worker.cpp reads of it. Boost's property tree is an
-- interface with laws, and so is what read_json and write_json make of a file; QString::trimmed is a
-- parameter.
use Prim.Native.String.{String}
use easy_voice_call.Base.{ℕ, ◌≡◌, ◌≢◌, ◌∙◌, Bool, true, Option, none, some}

-- The paths that the programs use, and all others.
pub data Key : Type 0 where
  server_host : Key
  server_port : Key
  protocol : Key
  need_aec : Key
  other : ℕ → Key

pub record PropertyTree (T : Type 0) : Type 0 where
  pub get : T → Key → String → String
  pub get_bool : T → Key → Bool → Bool
  pub put : T → Key → String → T
  pub put_bool : T → Key → Bool → T
  pub get-put : (t : T) (k : Key) (v d : String) → get (put t k v) k d ≡ v
  pub get-put_other : (t : T) (k l : Key) (v d : String) → k ≢ l → get (put t k v) l d ≡ get t l d
  pub get-put_bool_other :
      (t : T) (k l : Key) (b : Bool) (d : String) → k ≢ l → get (put_bool t k b) l d ≡ get t l d
  pub get_bool-put_bool : (t : T) (k : Key) (b d : Bool) → get_bool (put_bool t k b) k d ≡ b

-- A file's content `F` under read_json, which gives no tree where it raises an exception, and under
-- write_json, which says what the file holds then, and whether it has raised none, as it does for a
-- tree that JSON cannot represent. What has been written is read back with its texts.
pub record Json (T F : Type 0) (tree : PropertyTree T) : Type 0 where
  pub read_json : F → Option T
  pub write_json : T → F × Bool
  pub reads_back :
      (t : T) (file : F)
      → write_json t ≡ (file, true)
      → (u : T) × (read_json file ≡ some u)
        × ((k : Key) (d : String) → tree.get u k d ≡ tree.get t k d)

-- The texts of the two fields, the check box, and `root_`.
pub record Fields (T : Type 0) : Type 0 where
  pub root : T
  pub line_edit_server_host : String
  pub line_edit_server_port : String
  pub check_box_need_aec : Bool

-- What the worker's init and syncStart take from the configuration.
pub record Config : Type 0 where
  pub host : String
  pub port : String
  pub protocol_name : String
  pub echo_cancelled : Bool

module _ {T : Type 0} (tree : PropertyTree T) where
  unfoldable pub put_server : T → String → String → T
  put_server t host port = tree.put (tree.put t server_host host) server_port port

  module _ {F : Type 0} (json : Json T F tree) where
    loaded : Fields T → Option T → Fields T
    loaded w none = w
    loaded w (some t) = record w {
      root = t;
      line_edit_server_host = tree.get t server_host "127.0.0.1";
      line_edit_server_port = tree.get t server_port "80";
    }

    -- The constructor; `none` is a file that cannot be opened.
    pub load : Fields T → Option F → Fields T
    unfolding loaded
    load w none = w
    load w (some file) = loaded w (json.read_json file)

    -- `root_` behind read_json, which leaves it where it raises an exception.
    abbrev pub root_behind : T → Option T → T
    root_behind root none = root
    root_behind root (some t) = t

    -- The destructor: what the file holds then, and whether write_json has raised no exception.
    unfoldable pub save : Fields T → Option F → Option (F × Bool)
    unfolding put_server
    save w none = none
    save w (some file) = some (
        json.write_json (
          put_server (root_behind w.root (json.read_json file)) w.line_edit_server_host
            w.line_edit_server_port))

  module _ (trimmed : String → String) where
    -- gotoWork, as far as it trims the fields and sets up the configuration.
    pub configure : Fields T → Fields T
    unfolding put_server
    configure w =
        let host = trimmed w.line_edit_server_host in
        let port = trimmed w.line_edit_server_port in
        let named = tree.put (put_server w.root host port) protocol "raw_udp" in
        record w {
          line_edit_server_host = host;
          line_edit_server_port = port;
          root = tree.put_bool named need_aec w.check_box_need_aec;
        }

  pub config_of : T → Bool → Config
  config_of t needs_aec = record {
    host = tree.get t server_host "127.0.0.1";
    port = tree.get t server_port "80";
    protocol_name = tree.get t protocol "";
    echo_cancelled = tree.get_bool t need_aec needs_aec;
  }

  get_host-put_server :
      (t : T) (host port d : String) → tree.get (put_server t host port) server_host d ≡ host
  unfolding put_server
  get_host-put_server t host port d =
      tree.get-put_other (tree.put t server_host host) server_port server_host port d
        (λ e. absurd cc)
      ∙ tree.get-put t server_host host d

  get_port-put_server :
      (t : T) (host port d : String) → tree.get (put_server t host port) server_port d ≡ port
  unfolding put_server
  get_port-put_server t host port d = tree.get-put (tree.put t server_host host) server_port port d

  put_server_other :
      (t : T) (host port d : String) (k : Key)
      → server_host ≢ k
      → server_port ≢ k
      → tree.get (put_server t host port) k d ≡ tree.get t k d
  unfolding put_server
  put_server_other t host port d k h p =
      tree.get-put_other (tree.put t server_host host) server_port k port d p
      ∙ tree.get-put_other t server_host k host d h

  -- What the worker reads of `c`, and what of the settings of `w` stays.
  pub record Configured (trimmed : String → String) (w : Fields T) (c : Fields T) : Type 0 where
    pub host_read :
        (needs_aec : Bool) → (config_of c.root needs_aec).host ≡ trimmed w.line_edit_server_host
    pub port_read :
        (needs_aec : Bool) → (config_of c.root needs_aec).port ≡ trimmed w.line_edit_server_port
    pub protocol_read : (needs_aec : Bool) → (config_of c.root needs_aec).protocol_name ≡ "raw_udp"
    pub aec_read :
        (needs_aec : Bool) → (config_of c.root needs_aec).echo_cancelled ≡ w.check_box_need_aec
    pub rest_kept : (n : ℕ) (d : String) → tree.get c.root (other n) d ≡ tree.get w.root (other n) d

  -- The configuration that gotoWork sets up is read by the worker as the trimmed texts of the two
  -- fields, the protocol raw_udp and the check box, and all settings at other paths stay.
  pub configure-Configured :
      (trimmed : String → String) (w : Fields T) → Configured trimmed w (configure trimmed w)
  unfolding configure config_of
  configure-Configured trimmed w =
      let host = trimmed w.line_edit_server_host in
      let port = trimmed w.line_edit_server_port in
      let put = put_server w.root host port in
      let named = tree.put put protocol "raw_udp" in
      let checked = w.check_box_need_aec in
      record {
        host_read = λ b.
            tree.get-put_bool_other named need_aec server_host checked _ (λ e. absurd cc)
            ∙ tree.get-put_other put protocol server_host "raw_udp" _ (λ e. absurd cc)
            ∙ get_host-put_server w.root host port _;
        port_read = λ b.
            tree.get-put_bool_other named need_aec server_port checked _ (λ e. absurd cc)
            ∙ tree.get-put_other put protocol server_port "raw_udp" _ (λ e. absurd cc)
            ∙ get_port-put_server w.root host port _;
        protocol_read = λ b.
            tree.get-put_bool_other named need_aec protocol checked _ (λ e. absurd cc)
            ∙ tree.get-put put protocol "raw_udp" _;
        aec_read = λ b. tree.get_bool-put_bool named need_aec checked b;
        rest_kept = λ n d.
            tree.get-put_bool_other named need_aec (other n) checked d (λ e. absurd cc)
            ∙ tree.get-put_other put protocol (other n) "raw_udp" d (λ e. absurd cc)
            ∙ put_server_other w.root host port d (other n) (λ e. absurd cc) (λ e. absurd cc);
      }
