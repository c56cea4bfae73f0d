-- ===== src/Context.antt =====
-- src/include/xcontext.h and src/source/xcontext.cpp: the registers and the stack are saved where a
-- transaction begins, and put back when it is rolled back. An address is that of a word; the stack grows
-- to lower addresses. `getcontext` and `setcontext` save and set the registers, which are opaque.
pub mod Restore
use grace.Prelude.{ℕ, zero, suc, ◌+◌, ◌-◌, Bool, true, false, ltb, leb, ◌==◌, if◌then◌else◌}
use grace.Result.{Result, ok, undefined, ◌>>=◌}

-- The integers, for a difference of two pointers.
pub data ℤ : Type 0 where
  pos negsuc : ℕ → ℤ

unfoldable pub difference : ℕ → ℕ → ℤ
difference a b = if leb b a then pos (a - b) else negsuc (b - a - 1)

-- `MAX_STACK_SIZE`.
abbrev pub max_stack_size : ℕ
max_stack_size = 1048576

-- `xcontext`: `pbos` is the highest address of the stack.
pub record Context : Type 0 where
  pub pbos : ℕ
  pub registers : ℕ
  pub stack_size : ℤ
  pub stack : ℕ → ℕ

-- The first `n` rounds of the loop of `save_stack`.
unfoldable pub save_words : ℕ → (ℕ → ℕ) → ℕ → (ℕ → ℕ) → (ℕ → ℕ)
save_words pbos memory zero stack = stack
save_words pbos memory (suc n) stack =
    let before = save_words pbos memory n stack in
    λ i. if i == n then memory (pbos - n) else before i

-- `save_stack`; more words than `_stack` has room for are written past its end.
unfoldable pub save_stack : ℕ → (ℕ → ℕ) → ℤ → Context → Result Context
unfolding save_words
save_stack pbos memory (pos n) c =
    if leb n max_stack_size
    then ok (record c { stack_size = pos n; stack = save_words pbos memory n c.stack })
    else undefined
save_stack pbos memory (negsuc n) c = ok (record c { stack_size = negsuc n })

-- `getContext`, called with `tos` at the top of the stack. After `setcontext` too, `getcontext` returns 0.
unfoldable pub get_context : ℕ → ℕ → (ℕ → ℕ) → Context → Result Context
unfolding save_stack difference
get_context registers tos memory c =
    save_stack c.pbos memory (difference c.pbos tos) (record c { registers = registers })

-- `commit`.
unfoldable pub commit : ℕ → ℕ → (ℕ → ℕ) → Context → Result Context
unfolding get_context
commit registers tos memory c = get_context registers tos memory c

-- `initialize`, where `top` is what `stacktop` gives.
unfoldable pub initialize : ℕ → ℕ → ℕ → (ℕ → ℕ) → Context → Result Context
unfolding commit
initialize top registers tos memory c = commit registers tos memory (record c { pbos = top })

-- `_pbos - _stackSize < &tos`.
unfoldable pub too_high : Context → ℕ → Bool
too_high c tos = elim c.stack_size [
  | pos n ↦ ltb (c.pbos - n) tos
  | negsuc n ↦ ltb (c.pbos + n + 1) tos
]

-- The first `n` rounds of the loop of `restoreStack`.
unfoldable pub restore_words : ℕ → (ℕ → ℕ) → ℕ → (ℕ → ℕ) → (ℕ → ℕ)
restore_words pbos stack zero memory = memory
restore_words pbos stack (suc n) memory =
    let before = restore_words pbos stack n memory in
    λ a. if a == pbos - n then stack n else before a

unfoldable pub copy_back : Context → (ℕ → ℕ) → (ℕ → ℕ)
unfolding restore_words
copy_back c memory = elim c.stack_size [
  | pos n ↦ restore_words c.pbos c.stack n memory
  | negsuc n ↦ memory
]

-- What the process goes on with after `setcontext`, and where the last frame of `restoreStack` stood.
pub record Restored : Type 0 where
  pub registers : ℕ
  pub memory : ℕ → ℕ
  pub last_frame : ℕ

-- `restoreStack`, whose local `tos` stands at `tos`. Each call of itself takes a frame of `frame` words;
-- the stack has room for `room` frames, and what runs over it is undefined. No call returns.
unfoldable pub restore_stack : ℕ → ℕ → Bool → ℕ → Context → (ℕ → ℕ) → Result Restored
unfolding too_high copy_back
restore_stack zero frame once_more tos c memory = undefined
restore_stack (suc room) frame once_more tos c memory = elim (too_high c tos) [
  | true ↦ restore_stack room frame true (tos - frame) c memory
  | false ↦ elim once_more [
    | true ↦ restore_stack room frame false (tos - frame) c memory
    | false ↦ ok (record { registers = c.registers; memory = copy_back c memory; last_frame = tos })
  ]
]

-- `abort`.
unfoldable pub abort : ℕ → ℕ → ℕ → Context → (ℕ → ℕ) → Result Restored
unfolding restore_stack
abort room frame tos c memory = restore_stack room frame true tos c memory
