-- ===== src/Port/Rules.antt =====
-- Rules for what holds after an action.
use catapulte.Common.{◌≡◌, Result, ok, err}
use catapulte.Port.Call.{After, Exec, History, ◌>>=◌}

-- A step whose error ends the service, or is handled: each branch may use what the step left.
pub After-try :
    {A B E : Type 0} (P : B → History → Type 0) (Q : Result A E → History → Type 0)
    (m : Exec (Result A E)) (good : A → Exec B) (bad : E → Exec B) (h : History)
    → After Q h m
    → ((a : A) (k : History) → Q (ok a) k → After P k (good a))
    → ((e : E) (k : History) → Q (err e) k → After P k (bad e))
    → After P h (m >>= λ r. elim r [ ok a ↦ good a | err e ↦ bad e ])
After-try P Q m good bad h q onward handled = branch (m h).0 (m h).1 q
  where
    branch :
        (r : Result _ _) (k : History)
        → Q r k
        → After P k (elim r [ ok a ↦ good a | err e ↦ bad e ])
    branch (ok a) k q = onward a k q
    branch (err e) k q = handled e k q

-- A step that is known to succeed, and one that is known to fail.
pub After-ok :
    {A B E : Type 0} (P : B → History → Type 0) (m : Exec (Result A E)) (good : A → Exec B)
    (bad : E → Exec B) (h : History) {a : A}
    → (m h).0 ≡ ok a
    → After P (m h).1 (good a)
    → After P h (m >>= λ r. elim r [ ok a ↦ good a | err e ↦ bad e ])
After-ok P m good bad h e p = rw (e, ◌>>=◌) p

pub After-err :
    {A B E : Type 0} (P : B → History → Type 0) (m : Exec (Result A E)) (good : A → Exec B)
    (bad : E → Exec B) (h : History) {x : E}
    → (m h).0 ≡ err x
    → After P (m h).1 (bad x)
    → After P h (m >>= λ r. elim r [ ok a ↦ good a | err e ↦ bad e ])
After-err P m good bad h e p = rw (e, ◌>>=◌) p
