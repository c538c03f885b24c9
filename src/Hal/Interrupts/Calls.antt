-- ===== src/Hal/Interrupts/Calls.antt =====
-- Which calls the tables of dev/ZKAKit/HALKit/AMD64/HalCoreInterruptHandlerAMD64.cc reach.
use zka.Common.{
  ℕ, zero, suc, ◌+◌, ◌≡◌, refl, inl, inr, Bool, true, not, ◌&&◌, List, [], ◌∷◌, ltb, ◌==◌,
  if◌then◌else◌, get_or, Bool-cases, arith,
}
use zka.Sched.Process.{Cmd, Kernel, ok, skip}
use zka.Hal.Interrupts.{
  SyscallRecord, no_record, count_hooked, enter_record, system_call_enter, kernel_call_enter,
}

-- How many records in front of an index are not hooked.
unfoldable pub free_before : List SyscallRecord → ℕ → ℕ
free_before [] i = 0
free_before (r ∷ rs) zero = 0
free_before (r ∷ rs) (suc i) = (if r.hooked then 0 else 1) + free_before rs i

-- How many records from an index on are hooked.
unfoldable pub hooked_from : List SyscallRecord → ℕ → ℕ
hooked_from [] i = 0
hooked_from (r ∷ rs) zero = (if r.hooked then 1 else 0) + hooked_from rs zero
hooked_from (r ∷ rs) (suc i) = hooked_from rs i

hooked_from-zero : (table : List SyscallRecord) → hooked_from table 0 ≡ count_hooked table
unfolding count_hooked hooked_from
hooked_from-zero [] = refl
hooked_from-zero (r ∷ rs) = rw (hooked_from-zero rs) refl

count_hooked-split :
    (table : List SyscallRecord) (i : ℕ)
    → (get_or table i no_record).hooked ≡ true
    → count_hooked table + free_before table i ≡ i + hooked_from table i
unfolding count_hooked free_before hooked_from
count_hooked-split [] i h = absurd (ground arith)
count_hooked-split (r ∷ rs) zero h = ground (arith, hooked_from-zero rs)
count_hooked-split (r ∷ rs) (suc i) h = ground (arith, count_hooked-split rs i h)

same_test : (a b i n : ℕ) → n + a ≡ i + b → ltb i n ≡ ltb a b
same_test a b i n h = ground arith

module _ (call : ℕ → ℕ → Cmd (Unit {0})) where
  enter_record-cases :
      (r : SyscallRecord) (inside before : Bool) (arg : ℕ) (s : Kernel)
      → (r.hooked ≡ true → inside ≡ before)
      → (if inside then enter_record call r arg else skip) s
        ≡ (if r.hooked && not (r.proc == 0) && before then call r.proc arg s else ok tt s)
  unfolding enter_record
  enter_record-cases r inside before arg s h = elim (Bool-cases r.hooked) [
    | inl e ↦
        rw (h e, e)
          (elim (Bool-cases (r.proc == 0)) [
            | inl z ↦ elim (Bool-cases before) [ inl b ↦ rw (z, b) refl | inr b ↦ rw (z, b) refl ]
            | inr z ↦ elim (Bool-cases before) [ inl b ↦ rw (z, b) refl | inr b ↦ rw (z, b) refl ]
          ])
    | inr e ↦ rw e (elim (Bool-cases inside) [ inl b ↦ rw b refl | inr b ↦ rw b refl ])
  ]

  -- For every table and index, the entry of system calls and that of kernel calls call the
  -- procedure of the record at the index exactly if this record is hooked and has a procedure, and
  -- fewer records in front of it are not hooked than records from it on are hooked; else they do
  -- nothing.
  pub calls-cases :
      (table : List SyscallRecord) (i arg : ℕ) (s : Kernel)
      → let r = get_or table i no_record in
        let result =
          if r.hooked && not (r.proc == 0) && ltb (free_before table i) (hooked_from table i)
          then call r.proc arg s
          else ok tt s in
        (system_call_enter call table i arg s ≡ result)
        × (kernel_call_enter call table i arg s ≡ result)
  unfolding system_call_enter kernel_call_enter
  calls-cases table i arg s =
      let r = get_or table i no_record in
      let inside = ltb i (count_hooked table) in
      let before = ltb (free_before table i) (hooked_from table i) in
      let each = enter_record-cases r inside before arg s λ e.
        same_test (free_before table i) (hooked_from table i) i (count_hooked table)
          (count_hooked-split table i e) in
      (each, each)
