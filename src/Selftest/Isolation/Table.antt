-- ===== src/Selftest/Isolation/Table.antt =====
-- From level 2 on test_encl.c calls its operations within the bounds of their table. The C local
-- `op_type` is volatile, so it lies on the enclave's stack and is read for the check and again for the
-- call; the model has its value outside of memory, which is right for the hosts of the theorem, that
-- cannot change the enclave's memory.
use pandora_examples.Prelude.{
  ℕ, zero, suc, ◌≤◌, ◌<◌, All, le→leb, leb, ltb, ◌==◌, [], lt→ltb, ltb→lt,
}
use pandora_examples.Selftest.Layout.{Respects}
use pandora_examples.Machine.{
  Memory, Machine, Cmd, ◌>>=◌, Event, load, store, exec, wild, interrupt, log, skip, load_word,
  store_word, call, memcpy,
}
use pandora_examples.Machine.Hoare.{
  Rules, Keeps, Keeps-skip, Keeps-then, Keeps-bind, Keeps-if, Keeps-load_word, Keeps-store_word,
  Keeps-call, Keeps-memcpy,
}
use pandora_examples.Selftest.{
  Env, EnclOpType, put_to_buffer, get_from_buffer, put_to_address, get_from_address,
  get_from_unmeasured, nop, call_address, call_unmeasured, call_non_exec, checked, run_op,
  do_encl_op_put_to_buf, do_encl_op_get_from_buf, do_encl_op_put_to_addr, copy_from_addr,
  copy_from_addr_checked, copy_from_pointer, do_encl_op_get_from_addr, clear_unmeasured,
  do_encl_op_get_from_unmeasured, do_encl_op_call_addr, fill_unmeasured, do_encl_op_call_unmeasured,
  do_encl_op_call_non_exec, call_op, op_of, encl_op_max, encl_body,
}

-- No call through an element that the table does not have.
abbrev pub InTable : Event → Type 0
InTable (load a n) = Unit
InTable (store a n) = Unit
InTable (exec a) = Unit
InTable (wild i) = ⊥

abbrev AllInTable : Machine → Type 0
AllInTable s = All InTable s.trace

module _ (e : Env) where
  rules :
      Rules e.host AllInTable (λ (a n : ℕ). Unit {0}) (λ (a n : ℕ). Unit {0}) (λ (a : ℕ). Unit {0})
  unfolding interrupt log
  rules = record {
    on_interrupt = λ s i. i;
    on_load = λ s a n i ok. (tt, i);
    on_store = λ s a n v i ok. (tt, i);
    on_call = λ s a i ok. (tt, i);
  }

  -- A load, whatever is done with its value.
  load-then :
      {B : Type 0} (n a : ℕ) (f : ℕ → Cmd B)
      → ((v : ℕ) → Keeps AllInTable (f v))
      → Keeps AllInTable (load_word e.host n a >>= f)
  load-then n a f k =
      Keeps-bind _ _ f (λ _. Unit {0})
        (λ s i. (Keeps-load_word e.host _ _ _ _ rules n a tt s i, tt)) λ v _. k v

  store-InTable : (n a v : ℕ) → Keeps AllInTable (store_word e.host n a v)
  store-InTable n a v = Keeps-store_word e.host _ _ _ _ rules n a v tt

  call-InTable : (a : ℕ) → Keeps AllInTable (call e.host a)
  call-InTable a = Keeps-call e.host _ _ _ _ rules a tt

  copy-InTable : (dest src n : ℕ) → Keeps AllInTable (memcpy e.host dest src n)
  copy-InTable dest src n = Keeps-memcpy e.host _ _ _ _ rules dest src n λ j lt. (tt, tt)

  checked-InTable :
      (level a n : ℕ) (rest : Cmd (Unit {0}))
      → Keeps AllInTable rest
      → Keeps AllInTable (checked e level a n rest)
  unfolding checked
  checked-InTable level a n rest k = Keeps-if _ _ skip rest (λ _. Keeps-skip _) λ _. k

  copy_from_addr-InTable : (op : ℕ) → Keeps AllInTable (copy_from_addr e op)
  unfolding copy_from_addr
  copy_from_addr-InTable op = load-then 8 _ _ λ src. copy-InTable _ src 8

  clear-InTable : Keeps AllInTable (clear_unmeasured e)
  unfolding clear_unmeasured
  clear-InTable =
      Keeps-if _ (leb 4 e.fix) _ _ (λ _. store-InTable 8 _ 0)
        λ _. Keeps-if _ (leb 3 e.fix) _ skip (λ _. store-InTable 4 _ 1) λ _. Keeps-skip _

  fill-InTable : (len k i : ℕ) → Keeps AllInTable (fill_unmeasured e len k i)
  unfolding fill_unmeasured
  fill-InTable len zero i = Keeps-skip _
  fill-InTable len (suc k) i =
      Keeps-then _ _ _ (Keeps-then _ _ _ (store-InTable 1 _ _) (store-InTable 1 _ _))
        (fill-InTable len k (suc i))

  run_op-InTable : (t : EnclOpType) (op : ℕ) → Keeps AllInTable (run_op e t op)
  unfolding run_op do_encl_op_put_to_buf do_encl_op_get_from_buf do_encl_op_put_to_addr
      do_encl_op_get_from_addr copy_from_pointer copy_from_addr_checked
      do_encl_op_get_from_unmeasured do_encl_op_call_addr do_encl_op_call_unmeasured
      do_encl_op_call_non_exec
  run_op-InTable put_to_buffer op = checked-InTable 2 op 16 _ (copy-InTable _ _ 8)
  run_op-InTable get_from_buffer op = checked-InTable 2 op 16 _ (copy-InTable _ _ 8)
  run_op-InTable put_to_address op =
      checked-InTable 2 op 24 _
        (load-then 8 _ _ λ ptr. checked-InTable 3 ptr 8 _ (copy-InTable ptr _ 8))
  run_op-InTable get_from_address op = checked-InTable 2 op 24 _ (
      Keeps-if _ (leb 4 e.fix) _ _
        (λ _. load-then 8 _ _ λ ptr. checked-InTable 4 ptr 8 _ (copy-InTable _ ptr 8))
        λ _.
          Keeps-if _ (e.fix == 3) _ _
            (λ _. load-then 8 _ _ λ a. checked-InTable 3 a 8 _ (copy_from_addr-InTable op))
            λ _. copy_from_addr-InTable op)
  run_op-InTable get_from_unmeasured op = checked-InTable 2 op 24 _ (
      Keeps-then _ _ _ clear-InTable
        (load-then 8 _ _ λ offset. load-then 8 _ _ λ v. store-InTable 8 _ v))
  run_op-InTable nop op = Keeps-skip _
  run_op-InTable call_address op = checked-InTable 2 op 16 _ (
      load-then 8 _ _ λ fun_ptr.
        Keeps-if _ (leb 4 e.fix) _ _
          (λ _.
            Keeps-if _ (fun_ptr == e.do_encl_op_nop_address) _ skip (λ _. call-InTable fun_ptr)
              λ _. Keeps-skip _)
          λ _. checked-InTable 3 fun_ptr 8 _ (call-InTable fun_ptr))
  run_op-InTable call_unmeasured op = Keeps-then _ _ _ (fill-InTable _ _ 0) (call-InTable _)
  run_op-InTable call_non_exec op =
      Keeps-if _ (ltb e.fix 4) _ skip (λ _. call-InTable _) λ _. Keeps-skip _

  call_op-InTable : (i op : ℕ) → i < encl_op_max → Keeps AllInTable (call_op e i op)
  unfolding call_op
  call_op-InTable i op lt s inv = rw (lt→ltb i encl_op_max lt) (run_op-InTable (op_of i) op s inv)

  body-InTable : (rdi : ℕ) → 2 ≤ e.fix → Keeps AllInTable (encl_body e rdi)
  unfolding encl_body
  body-InTable rdi on = checked-InTable 1 rdi 8 _ (
      load-then 8 _ _ λ t.
        Keeps-if _ (ltb t encl_op_max) _ skip
          (λ known. rw (le→leb 2 e.fix on) (call_op-InTable t rdi (ltb→lt t encl_op_max known)))
          λ unknown. Keeps-skip _)

-- From level 2 on, the enclave never calls through an index past the end of the table of
-- operations, for every memory and request, with every host that leaves the enclave's own memory
-- alone, where the checked copy of the index is, but may change the request at any time.
pub encl_body-InTable :
    (e : Env) (mem : Memory) (rdi : ℕ)
    → Respects e
    → 2 ≤ e.fix
    → All InTable (encl_body e rdi (record { mem = mem; time = 0; trace = [] })).1.trace
encl_body-InTable e mem rdi respects on = body-InTable e rdi on _ tt
