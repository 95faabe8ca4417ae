-- ===== src/Tests/Ownership.antt =====
-- The system of the tests opens and closes descriptors as the record Kernel documents, and the
-- initial state of the tests owns its one descriptor.
use bricoler.Base.{
  ℕ, zero, suc, ◌<◌, ◌≡◌, ◌≢◌, refl, ℤ, pos, negsuc, Bool, List, [], ◌∷◌, true, false, arith, ap,
  sym, subst, ◌∙◌,
}
use bricoler.Os.{Ret, ok, fail}
use bricoler.Descriptors.{
  KeepsOpen, Opens, Kernel, NoFailure, NoFailureOf, NoFailures, After, Op, socket, pipe, pipe2,
  mkstemp, close, gc, run_op, Holds, Owned,
}
use bricoler.Lua.{Vm, Run, done, raised, aborted, undefined, gone}
use bricoler.Tests.System.{World, test_os, test_vm, open_in, advance, close_in, close_result}

advance-keeps : (n : ℕ) (w : World) → KeepsOpen test_os (λ _. ⊥) w (advance n w)
advance-keeps n w (pos k) _ h = (ground (arith, h))
advance-keeps n w (negsuc k) _ h = h

close-keeps : (fd : ℤ) (w : World) → KeepsOpen test_os (λ j. j ≡ fd) w (close_in fd w)
close-keeps (pos k) w (pos j) ne h = (ground (arith, h, ne))
close-keeps (pos k) w (negsuc j) ne h = h
close-keeps (negsuc k) w j ne h = h

close-closes :
    (fd : ℤ) (w : World) → close_result (open_in fd w) ≡ ok tt → open_in fd (close_in fd w) ≡ false
close-closes (pos k) w h = (ground arith)
close-closes (negsuc k) w h = refl

close-opens_none : (fd j : ℤ) (w : World) → open_in j w ≡ false → open_in j (close_in fd w) ≡ false
close-opens_none (pos k) (pos j) w h = (ground (arith, h))
close-opens_none (pos k) (negsuc j) w h = refl
close-opens_none (negsuc k) j w h = h

opened : (n : ℕ) (w : World) → 0 < n → Opens test_os w (pos w.next) (advance n w)
opened n w h = record {
  was_closed = (ground arith);
  now_open = (ground (arith, h));
  keeps = advance-keeps n w;
}

-- Its close(2) knows no error but EBADF.
pub test_os-NoFailure : (vm : Vm World) (i : ℕ) → NoFailure test_os vm i
test_os-NoFailure vm i fd e h c = only (open_in fd vm.world) c
  where
    only : (b : Bool) → close_result b ≡ fail e → e ≡ 5
    only true c = absurd (cc c)
    only false c = sym (ap error c)
      where
        error : Ret (Unit {0}) → ℕ
        error (ok u) = 0
        error (fail e) = e

pub always : {P : Vm World → Type 0} (r : Run World ℕ) → ((vm : Vm World) → P vm) → After P r
always (done n vm) p = p vm
always (raised r vm) p = p vm
always aborted p = tt
always undefined p = tt
always (gone w) p = tt

pub test_os-NoFailures : (ops : List Op) (vm : Vm World) → NoFailures test_os ops vm
test_os-NoFailures [] vm = tt
test_os-NoFailures (op ∷ ops) vm = (of op, always (run_op test_os op vm) (test_os-NoFailures ops))
  where
    of : (op : Op) → NoFailureOf test_os op vm
    of (close i) = test_os-NoFailure vm i
    of (gc i) = test_os-NoFailure vm i
    of (socket args) = tt
    of (pipe args) = tt
    of (pipe2 args) = tt
    of (mkstemp args) = tt

pub test_os-Kernel : Kernel test_os
test_os-Kernel = record {
  malloc_keeps = λ n w j _ h. h;
  socket_opens = λ d t p w fd e.
      subst (λ x. Opens test_os w x (advance 1 w)) (ap (value (pos 0)) e)
        (opened 1 w (omega arith));
  socket_fails = λ d t p w e q. absurd (ok-fail q);
  pipe_opens = λ f w r s e.
      subst (λ x. Opened w x) (ap (value (pos 0, pos 0)) e)
        (
          (λ q. ends w.next (ap value_of q)),
          (ground arith),
          (ground arith),
          opened 2 w (omega arith),
        );
  pipe_fails = λ f w e q. absurd (ok-fail q);
  mkstemp_opens = λ t w fd name e.
      subst (λ x. Opens test_os w x.0 (advance 1 w)) (ap (value (pos 0, [])) e)
        (opened 1 w (omega arith));
  mkstemp_fails = λ t w e q. absurd (ok-fail q);
  close_badf = λ fd w h. not_open (open_in fd w) h;
  close_keeps = close-keeps;
  close_closes = close-closes;
  close_opens_none = close-opens_none;
}
  where
    value : {A : Type 0} → A → Ret A → A
    value d (ok a) = a
    value d (fail e) = d

    value_of : ℤ → ℕ
    value_of (pos k) = k
    value_of (negsuc k) = 0

    not_open : (b : Bool) → close_result b ≡ fail 5 → b ≡ false
    not_open true h = absurd (cc h)
    not_open false h = refl

    ends : (n : ℕ) → n ≡ suc n → ⊥
    ends n q = omega (arith, q)

    Opened : World → ℤ × ℤ → Type 0
    Opened w x =
        (x.0 ≢ x.1)
        × (open_in x.1 w ≡ false)
        × (open_in x.1 (advance 2 w) ≡ true)
        × Opens test_os w x.0 (advance 2 w)

    ok-fail : {A : Type 0} {a : A} {e : ℕ} → ok a ≡ fail e → ⊥
    ok-fail q = cc

only : (i : ℕ) (fd : ℤ) → Holds test_vm i fd → (i ≡ 0) × (fd ≡ pos 3)
only zero fd h = (refl, (sym h.content))
only (suc i) fd h = (cc h.meta)

pub test_vm-Owned : Owned test_os test_vm
test_vm-Owned = record {
  loaded = refl;
  held = λ i fd h. rw (only i fd h).1 (refl);
  distinct = λ i j fd h k. (only i fd h).0 ∙ sym (only j fd k).0;
  made = λ i fd h. rw (only i fd h).0 (omega arith);
}
