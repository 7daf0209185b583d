-- ===== src/Examples/Settings.antt =====
-- The settings of the desktop client over a concrete property tree.
use Prim.Native.String.{String}
use easy_voice_call.Base.{
  ℕ, zero, suc, ◌+◌, sym, ap, ◌∙◌, ◌≡◌, ◌≢◌, refl, Bool, true, Option, some, none, if◌then◌else◌,
  ◌==◌, arith, Bool-cases, inl, inr,
}
use easy_voice_call.Desktop.Settings.{
  Key, server_host, server_port, protocol, need_aec, other, PropertyTree, Json, Fields, save,
  put_server,
}

abbrev number : Key → ℕ
number server_host = 0
number server_port = 1
number protocol = 2
number need_aec = 3
number (other n) = n + 4

-- A tree is what it holds at each path.
abbrev Held : Type 0
Held = (ℕ → Option String) × (ℕ → Option Bool)

abbrev or_else {ℓ} : {A : Type ℓ} → Option A → A → A
or_else none d = d
or_else (some v) d = v

abbrev set_at {ℓ} : {A : Type ℓ} → (ℕ → Option A) → ℕ → A → ℕ → Option A
set_at f k v i = if i == k then some v else f i

set_at-hit : {A : Type 0} (f : ℕ → Option A) (k : ℕ) (v d : A) → or_else (set_at f k v k) d ≡ v
set_at-hit f k v d = let same : (k == k) ≡ true = ground arith in rw same refl

set_at-miss :
    {A : Type 0} (f : ℕ → Option A) (k l : ℕ) (v d : A)
    → k ≢ l
    → or_else (set_at f k v l) d ≡ or_else (f l) d
set_at-miss f k l v d h = elim (Bool-cases (l == k)) [
  | inl hit ↦ absurd (h (ground arith))
  | inr miss ↦ rw miss refl
]

abbrev key_of : ℕ → Key
key_of zero = server_host
key_of (suc zero) = server_port
key_of (suc (suc zero)) = protocol
key_of (suc (suc (suc zero))) = need_aec
key_of (suc (suc (suc (suc n)))) = other n

key_of-number : (k : Key) → key_of (number k) ≡ k
key_of-number server_host = refl
key_of-number server_port = refl
key_of-number protocol = refl
key_of-number need_aec = refl
key_of-number (other n) = let sum : n + 4 ≡ suc (suc (suc (suc n))) = omega arith in rw sum refl

number-apart : (k l : Key) → k ≢ l → number k ≢ number l
number-apart k l h e = h (sym (key_of-number k) ∙ ap key_of e ∙ key_of-number l)

abbrev held : PropertyTree Held
held = record {
  get = λ t k d. or_else (t.0 (number k)) d;
  get_bool = λ t k d. or_else (t.1 (number k)) d;
  put = λ t k v. (set_at t.0 (number k) v, t.1);
  put_bool = λ t k b. (t.0, set_at t.1 (number k) b);
  get-put = λ t k v d. set_at-hit t.0 (number k) v d;
  get-put_other = λ t k l v d h. set_at-miss t.0 (number k) (number l) v d (number-apart k l h);
  get-put_bool_other = λ t k l b d h. refl;
  get_bool-put_bool = λ t k b d. set_at-hit t.1 (number k) b d;
}

abbrev window : Fields Held
window = record {
  root = (λ n. none, λ n. none);
  line_edit_server_host = "example.org";
  line_edit_server_port = "8000";
  check_box_need_aec = true;
}

abbrev next_window : Fields Held
next_window = record window { line_edit_server_host = ""; line_edit_server_port = "" }

-- A file is empty or holds a tree.
abbrev json : Json Held (Option Held) held
json = record {
  read_json = λ file. file;
  write_json = λ t. (some t, true);
  reads_back = λ t file e. (t, cc, λ k d. refl);
}

-- What the destructor leaves in an empty file.
abbrev saved : Option Held
saved = some (held.put (held.put window.root server_host "example.org") server_port "8000")

written : save held json window (some none) ≡ some (saved, true)
unfolding save put_server
written = refl
