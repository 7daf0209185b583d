-- ===== src/Server/Main.antt =====
-- server/Server.cpp: `main`, up to the server that it starts. `atoi` is an argument, and so is whether
-- Boost.Asio can open the socket at a port; if it cannot, its exception is caught in `main`.
use Prim.Native.String.{String}
use text.Mathlib.Text.{◌==◌}
use text.Mathlib.TextEquality.{eq_iff}
use easy_voice_call.Base.{
  ℕ, ◌-◌, ◌%◌, ◌^◌, ◌≡◌, ◌⊎◌, inl, inr, refl, ap, sym, ◌∙◌, subst, Bool, true, false, List, [], ◌∷◌,
  Option, none, some, if◌then◌else◌,
}
use easy_voice_call.Base.Int.{ℤ, pos, negsuc}

-- The port that the server's socket is bound to, and the global `isEchoMode`.
pub record Started : Type 0 where
  pub port : ℕ
  pub is_echo_mode : Bool

-- The int of `atoi` as the short that the server takes, and that as the unsigned short of its endpoint.
abbrev pub narrow : ℤ → ℕ
narrow (pos n) = n % 2 ^ 16
narrow (negsuc n) = 2 ^ 16 - 1 - n % 2 ^ 16

-- What the block behind the arguments starts; `main` returns 0 also after an exception.
start : (ℕ → Bool) → ℤ → Bool → ℤ × Option Started
start can_open port is_echo_mode = (
  pos 0,
  if can_open (narrow port)
      then some (record { port = narrow port; is_echo_mode = is_echo_mode })
      else none,
)

-- Whether the second argument is "broadcast", and whether it is "echo".
start_in_mode : (ℕ → Bool) → ℤ → Bool → Bool → ℤ × Option Started
unfolding start
start_in_mode can_open port true is_echo = start can_open port false
start_in_mode can_open port false true = start can_open port true
start_in_mode can_open port false false = (negsuc 0, none)

-- `args` are the arguments behind the program's name. The results are what `main` returns, -1 before
-- any server is started, and the server.
pub main : (String → ℤ) → (ℕ → Bool) → List String → ℤ × Option Started
unfolding start_in_mode start
main atoi can_open (port ∷ []) = start can_open (atoi port) false
main atoi can_open (port ∷ mode ∷ []) =
    start_in_mode can_open (atoi port) ("broadcast" == mode) ("echo" == mode)
main atoi can_open _ = (negsuc 0, none)

-- The command lines of the usage text, and the server that each stands for.
pub data Usage (atoi : String → ℤ) : (args : List String) → (s : Started) → Type 0 where
  port_only :
      (port : String)
      → Usage atoi (port ∷ []) (record { port = narrow (atoi port); is_echo_mode = false })
  broadcast :
      (port : String)
      → Usage atoi
          (port ∷ "broadcast" ∷ [])
          (record { port = narrow (atoi port); is_echo_mode = false })
  echo :
      (port : String)
      → Usage atoi (port ∷ "echo" ∷ []) (record { port = narrow (atoi port); is_echo_mode = true })

-- A command line of the usage text, by which `main` starts its server, or finds the port taken.
pub record Serves (atoi : String → ℤ) (can_open : ℕ → Bool) (args : List String)
    (r : ℤ × Option Started) : Type 0 where
  pub server : Started
  pub usage : Usage atoi args server
  pub returns : r.0 ≡ pos 0
  pub started : r.1 ≡ (if can_open server.port then some server else none)

-- Any other one: `main` returns -1, and starts nothing.
pub record Refuses (atoi : String → ℤ) (args : List String) (r : ℤ × Option Started) : Type 0 where
  pub no_usage : (s : Started) → ¬ Usage atoi args s
  pub returns : r.0 ≡ negsuc 0
  pub started : r.1 ≡ none

module _ (atoi : String → ℤ) (can_open : ℕ → Bool) where
  Usage-returns :
      {args : List String} {s : Started} → Usage atoi args s → (main atoi can_open args).0 ≡ pos 0
  unfolding main start_in_mode start
  Usage-returns (port_only port) = refl
  Usage-returns (broadcast port) = refl
  Usage-returns (echo port) = refl

  mode-cases :
      (port mode : String) (b e : Bool)
      → ("broadcast" == mode) ≡ b
      → ("echo" == mode) ≡ e
      → Serves atoi can_open (port ∷ mode ∷ []) (start_in_mode can_open (atoi port) b e)
        ⊎ Refuses atoi (port ∷ mode ∷ []) (start_in_mode can_open (atoi port) b e)
  unfolding main start_in_mode start
  mode-cases port mode true e is_broadcast is_echo = inl (record {
    server = record { port = narrow (atoi port); is_echo_mode = false };
    usage =
        subst
          (λ (m : String).
            Usage atoi (port ∷ m ∷ []) (record { port = narrow (atoi port); is_echo_mode = false }))
          ((eq_iff "broadcast" mode).0 is_broadcast) (broadcast port);
    returns = refl;
    started = refl;
  })
  mode-cases port mode false true is_broadcast is_echo = inl (record {
    server = record { port = narrow (atoi port); is_echo_mode = true };
    usage =
        subst
          (λ (m : String).
            Usage atoi (port ∷ m ∷ []) (record { port = narrow (atoi port); is_echo_mode = true }))
          ((eq_iff "echo" mode).0 is_echo) (echo port);
    returns = refl;
    started = refl;
  })
  mode-cases port mode false false is_broadcast is_echo = inr (record {
    no_usage = λ s usage.
        let returned = Usage-returns usage in
        let refused : (start_in_mode can_open (atoi port) false false).0 ≡ pos 0 =
          ap (λ (b : Bool). (start_in_mode can_open (atoi port) b false).0) (sym is_broadcast)
          ∙ ap (λ (e : Bool). (start_in_mode can_open (atoi port) ("broadcast" == mode) e).0)
              (sym is_echo)
          ∙ returned in
        absurd cc;
    returns = refl;
    started = refl;
  })

  -- A command line of the usage text, a port alone, with "broadcast" or with "echo", starts the server
  -- at that port, modulo 2^16, in echo mode exactly for the last one, if the socket can be opened, and
  -- no server otherwise; `main` returns 0 in both cases. By any other command line `main` starts nothing
  -- and returns -1.
  pub main-started :
      (args : List String)
      → Serves atoi can_open args (main atoi can_open args)
        ⊎ Refuses atoi args (main atoi can_open args)
  unfolding main start
  main-started [] = inr (record {
    no_usage = λ s usage. let returned = Usage-returns usage in absurd cc;
    returns = refl;
    started = refl;
  })
  main-started (port ∷ []) = inl (record {
    server = record { port = narrow (atoi port); is_echo_mode = false };
    usage = port_only port;
    returns = refl;
    started = refl;
  })
  main-started (port ∷ mode ∷ []) = mode-cases port mode _ _ refl refl
  main-started (port ∷ mode ∷ more ∷ rest) = inr (record {
    no_usage = λ s usage. let returned = Usage-returns usage in absurd cc;
    returns = refl;
    started = refl;
  })
