-- ===== src/SocketPair/Ending.antt =====
-- When the parent ends: how the stream's messages come together in its reads decides it.
use csel.Prelude.{
  ◌≡◌, ◌≢◌, ◌↔◌, refl, ℕ, zero, suc, List, [], ◌∷◌, ◌++◌, map, Bool, true, false, length, replicate,
  drop, sym, subst, All, inl, inr, if◌then◌else◌, ◌⊎◌,
}
use csel.Cstd.{Bytes, ok}
use csel.SocketPair.{
  exit_message, hello, child_sends, child, Read, received, receive, parent, up_to_nul,
}

-- The bytes of messages that lie one behind the other in the stream.
abbrev pub joined : List Bytes → Bytes
joined [] = []
joined (m ∷ ms) = m ++ joined ms

-- The messages that the reads get, read after read.
abbrev pub all_of : List (List Bytes) → List Bytes
all_of [] = []
all_of (g ∷ gs) = g ++ all_of gs

-- Reads of whole messages, and the end of the stream for the reads behind them.
abbrev pub reads : List (List Bytes) → ℕ → List Read
reads gs k = map (λ g. received (joined g)) gs ++ replicate k (received [])

-- The text of the message that a read begins with.
abbrev pub first_text : List Bytes → Bytes
first_text [] = []
first_text (m ∷ ms) = up_to_nul m

-- The last read gets the exit message, and nothing else.
abbrev pub ExitAlone : List (List Bytes) → Type 0
ExitAlone [] = ⊥
ExitAlone (g ∷ []) = g ≡ exit_message ∷ []
ExitAlone (g ∷ h ∷ gs) = ExitAlone (h ∷ gs)

-- Whether the parent has ended, and the texts that it has printed.
abbrev pub Ends : List (List Bytes) → ℕ → Bytes → Type 0
Ends gs k buf =
    (ended : Bool) × (parent (reads gs k) buf
      ≡ ok (ended, map first_text gs ++ (if ended then [] else replicate k [])))
    × ((ended ≡ true) ↔ ExitAlone gs)

-- Messages up to the exit message.
abbrev up_to_exit : ℕ → List Bytes
up_to_exit n = replicate n hello ++ exit_message ∷ []

append-nil-left : (g h : List Bytes) → g ++ h ≡ [] → g ≡ []
append-nil-left [] h e = refl
append-nil-left (m ∷ g) h e = absurd cc

append-nil-right : (g h : List Bytes) → g ++ h ≡ [] → h ≡ []
append-nil-right [] h e = e
append-nil-right (m ∷ g) h e = absurd cc

up_to_exit-ne-nil : (n : ℕ) → [] ≢ up_to_exit n
up_to_exit-ne-nil zero e = cc
up_to_exit-ne-nil (suc n) e = cc

split_messages :
    (n : ℕ) (g h : List Bytes) → g ++ h ≡ up_to_exit n → (h ≡ []) ⊎ ((k : ℕ) × (h ≡ up_to_exit k))
split_messages n [] h e = inr (n, e)
split_messages zero (m ∷ []) h e = inl cc
split_messages zero (m ∷ m' ∷ g) h e = absurd cc
split_messages (suc n) (m ∷ g) h e = split_messages n g h cc

all_of-nil : (gs : List (List Bytes)) → All (λ g. g ≢ []) gs → all_of gs ≡ [] → gs ≡ []
all_of-nil [] full e = refl
all_of-nil ([] ∷ gs) full e = absurd (full.0 refl)
all_of-nil ((m ∷ g) ∷ gs) full e = absurd cc

-- At the end of the stream the parent reads nothing, again and again.
waits :
    (k : ℕ) (t : Bytes)
    → parent (replicate k (received [])) (hello ++ t) ≡ ok (false, replicate k [])
unfolding parent receive
waits zero t = refl
waits (suc k) t = rw (waits k t) refl

begins-hello :
    (k : ℕ) (g : List Bytes) (gs : List (List Bytes)) (buf : Bytes)
    → ((b : Bytes) → Ends gs k (hello ++ b))
    → (ExitAlone ((hello ∷ g) ∷ gs) ↔ ExitAlone gs)
    → Ends ((hello ∷ g) ∷ gs) k buf
unfolding parent receive
begins-hello k g gs buf later same =
    let (ended, runs, alone) = later (joined g ++ drop (length (hello ++ joined g)) buf) in
    (ended, rw runs refl, (λ e. same.1 (alone.0 e), λ e. alone.1 (same.0 e)))

begins-exit : (k : ℕ) (buf : Bytes) → Ends ((exit_message ∷ []) ∷ []) k buf
unfolding parent receive
begins-exit k buf = (true, refl, (λ e. refl, λ e. refl))

-- A read that begins with a greeting is not the exit message alone.
hello-ExitAlone :
    (g : List Bytes) (gs : List (List Bytes)) → ExitAlone ((hello ∷ g) ∷ gs) ↔ ExitAlone gs
hello-ExitAlone g [] = (λ e. cc, λ e. absurd e)
hello-ExitAlone g (h ∷ gs) = (λ e. e, λ e. e)

-- A read that begins with a greeting hides what follows it in the buffer.
last_hello : (k : ℕ) (b : Bytes) → Ends [] k (hello ++ b)
last_hello k b = (false, waits k b, (λ e. cc, λ e. absurd e))

Ends-at :
    (n k : ℕ) (gs : List (List Bytes)) (buf : Bytes)
    → All (λ g. g ≢ []) gs
    → all_of gs ≡ up_to_exit n
    → Ends gs k buf
unfolding parent receive
Ends-at n k [] buf full e = absurd (up_to_exit-ne-nil n e)
Ends-at n k ([] ∷ gs) buf full e = absurd (full.0 refl)
Ends-at zero k ((m ∷ g) ∷ gs) buf full e =
    let nothing : g ++ all_of gs ≡ [] = cc in
    let none_left : gs ≡ [] = all_of-nil gs full.1 (append-nil-right g (all_of gs) nothing) in
    let whole : (exit_message ∷ []) ∷ [] ≡ (m ∷ g) ∷ gs =
      cc (none_left, append-nil-left g (all_of gs) nothing, e) in
    subst (λ x. Ends x k buf) whole (begins-exit k buf)
Ends-at (suc n) k ((m ∷ g) ∷ gs) buf full e =
    let greets : hello ≡ m = cc in
    let rest : g ++ all_of gs ≡ up_to_exit n = cc in
    subst (λ x. Ends ((x ∷ g) ∷ gs) k buf) greets
      (begins-hello k g gs buf
        (elim (split_messages n g (all_of gs) rest) [
          | inl nothing ↦ λ b.
              subst (λ x. Ends x k (hello ++ b)) (sym (all_of-nil gs full.1 nothing))
                (last_hello k b)
          | inr (j, more) ↦ λ b. Ends-at j k gs (hello ++ b) full.1 more
        ])
        (hello-ExitAlone g gs))

-- The child's messages come through the stream in any grouping by the reads of its parent, whole
-- messages and at least one for each read, with k reads at the end of the stream behind them.
-- Then the parent prints the first text of every read; it ends exactly if the last read of
-- messages gets the exit message alone, and if it does not, it goes on with an empty text for
-- each of the k reads.
pub parent-Ends :
    (gs : List (List Bytes)) (k : ℕ) (buf : Bytes)
    → All (λ g. g ≢ []) gs
    → all_of gs ≡ child
    → Ends gs k buf
unfolding child child_sends
parent-Ends gs k buf full e = Ends-at 4 k gs buf full e
