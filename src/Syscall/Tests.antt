-- ===== src/Syscall/Tests.antt =====
-- Runs of the functions of src/syscall.c on a process with one argument, a pointer to the string "a".
use waka_b4_research.Base.{ℕ, ◌≡◌, ◌⊎◌, refl, arith, none, some, update, minus_one, [], ◌∷◌}
use waka_b4_research.Syscall.{
  User, load_word, fetchint, scan_string, fetchstr, argint, argptr, argstr, syscall,
}
use waka_b4_research.Syscall.Args.{HasWord, arg_at, IsBlock, ArgString, argptr_lem, argstr_lem}

abbrev user : User
user = record { sz = 4096; esp = 100; mem = update (update (λ _. 0) 104 20) 20 b'a' }

-- The pointer may name the last bytes of the process, not more.
last_bytes : argptr 0 4076 user ≡ some 20
unfolding argptr argint fetchint
last_bytes = refl

past_end : argptr 0 4077 user ≡ none
unfolding argptr argint fetchint
past_end = refl

string_a : argstr 0 user ≡ some (20, 1)
unfolding argstr argint fetchint fetchstr scan_string
string_a = refl

-- The process ends before the 0.
abbrev cut_user : User
cut_user = record user { sz = 21; esp = 0; mem = update (update (λ _. 0) 4 20) 20 b'a' }

no_end : argstr 0 cut_user ≡ none
unfolding argstr argint fetchint fetchstr scan_string
no_end = refl

unknown_call : syscall (none ∷ some 3 ∷ []) 2 ≡ minus_one
unfolding syscall
unknown_call = refl

argptr_lem_example :
    ((p : ℕ) × (argptr 0 10 user ≡ some p)
      × HasWord (arg_at 0 user) user
      × (p ≡ load_word user.mem (arg_at 0 user))
      × IsBlock p 10 user)
    ⊎ ((argptr 0 10 user ≡ none)
        × (HasWord (arg_at 0 user) user → IsBlock (load_word user.mem (arg_at 0 user)) 10 user → ⊥))
argptr_lem_example = argptr_lem 0 10 user (omega arith)

argstr_lem_example : ArgString 0 user (argstr 0 user)
argstr_lem_example = argstr_lem 0 user (omega arith)
