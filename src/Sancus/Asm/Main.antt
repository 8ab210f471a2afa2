-- ===== src/Sancus/Asm/Main.antt =====
-- The unprotected side of the enclaves in sancus/ptrsan and sancus/cfsan: the main functions, which
-- are the same but for the arguments of enter_foo. What they call of the Sancus library and of
-- sm_io.h is seen as an action.
pub mod CfSan
pub mod PtrSan
pub mod Results
use pandora_examples.Prelude.{
  ℕ, ◌≡◌, Bool, true, false, ◌==◌, ◌⊎◌, inl, inr, List, [], ◌∷◌, if◌then◌else◌,
}
use pandora_examples.Sancus.Asm.{
  Program, Cpu, Exit, left, fell, strayed, running, run, public_end, set_register, push_word,
  pop_word, even,
}

-- The messages.
pub data Text : Type 0 where
  enabling_foo entering_foo all_done : Text

-- `printed` has the results of enter_foo, in the order of the calls. `continues_at` is not an action
-- of main: control goes on at an address that is neither that of main nor that of a return, which is
-- where the model ends; and `unfinished` is a run that the model does not follow to its end.
pub data Action : Type 0 where
  msp430_io_init sancus_enable pr_sm_info exit unfinished : Action
  pr_info : Text → Action
  printed : List ℕ → Action
  continues_at : ℕ → Action

-- A call comes back with a value and a state, or else main ends with an action.
abbrev pub Called : Type 0 → Type 0
Called A = Action ⊎ A

-- `ret` behind the public section: it goes to where the stack says, which is the caller where that
-- is `back`.
unfoldable pub ret_outside : ℕ → Cpu → Called (ℕ × Cpu)
unfolding pop_word
ret_outside back c =
    let r = pop_word c in
    if even r.0 == back then inr (r.1.registers 15, r.1) else inl (continues_at (even r.0))

-- The enclave's exit: to the `ret` at `behind`, by itself to the caller, or elsewhere.
unfoldable pub come_back : ℕ → ℕ → Exit → Called (ℕ × Cpu)
unfolding ret_outside
come_back behind back (left a c) =
    let outside = ret_outside back c in
    if a == behind
    then outside
    else if a == back
    then inr (c.registers 15, c)
    else inl (continues_at a)
come_back behind back (fell c) = ret_outside back c
come_back behind back (strayed a c) = inl (continues_at a)
come_back behind back (running c) = inl unfinished

-- A call of enter_foo, of at most 20 instructions.
unfoldable pub enter_foo : Program → ℕ → ℕ → ℕ → Cpu → Called (ℕ × Cpu)
unfolding come_back run push_word set_register
enter_foo p behind back arg c =
    come_back behind back (run p 20 0 (push_word back (set_register 15 arg c)))

infixl 5 ◌>>=◌
unfoldable pub ◌>>=◌ : {A B : Type 0} → Called A → (A → Called B) → Called B
◌>>=◌ (inl e) f = inl e
◌>>=◌ (inr a) f = f a

-- The calls of enter_foo, and their results.
unfoldable pub enter_all : Program → ℕ → ℕ → List ℕ → Cpu → Called (List ℕ)
unfolding enter_foo ◌>>=◌
enter_all p behind back [] c = inr []
enter_all p behind back (arg ∷ r) c = do
  result ← enter_foo p behind back arg c
  rest ← enter_all p behind back r result.1
  inr (result.0 ∷ rest)

unfoldable pub finish : Called (List ℕ) → List Action
finish (inl e) = e ∷ []
finish (inr results) = printed results ∷ pr_info all_done ∷ exit ∷ []

-- main, where enter_foo is called from before `back`
unfoldable pub main : Program → ℕ → List ℕ → ℕ → Cpu → List Action
unfolding enter_all finish
main p behind args back c =
    msp430_io_init
    ∷ pr_info enabling_foo
    ∷ sancus_enable
    ∷ pr_sm_info
    ∷ pr_info entering_foo
    ∷ finish (enter_all p behind back args c)
