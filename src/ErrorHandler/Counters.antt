-- ===== src/ErrorHandler/Counters.antt =====
-- What the counters count.
use simple_snmpd.Base.{ℕ, ◌+◌, ◌<◌, ◌≡◌, List, [], ◌∷◌, Bytes, u32, arith}
use simple_snmpd.ErrorHandler.{
  ErrorHandler, handle_error, handle_warning, handle_info, handle_debug,
}

-- A call of a handler, with its message, file, line and time.
pub data Call : Type 0 where
  an_error a_warning an_info a_debug : Bytes → Bytes → ℕ → Bytes → Call

unfoldable pub call : Call → ErrorHandler → ErrorHandler
call (an_error message file line timestamp) h = handle_error message file line timestamp h
call (a_warning message file line timestamp) h = handle_warning message file line timestamp h
call (an_info message file line timestamp) h = handle_info message file line timestamp h
call (a_debug message file line timestamp) h = handle_debug message file line timestamp h

unfoldable pub call_all : List Call → ErrorHandler → ErrorHandler
call_all [] h = h
call_all (x ∷ xs) h = call_all xs (call x h)

-- The calls of the two kinds that are counted.
abbrev pub errors : List Call → ℕ
errors [] = 0
errors (an_error message file line timestamp ∷ xs) = errors xs + 1
errors (a_warning message file line timestamp ∷ xs) = errors xs
errors (an_info message file line timestamp ∷ xs) = errors xs
errors (a_debug message file line timestamp ∷ xs) = errors xs

abbrev pub warnings : List Call → ℕ
warnings [] = 0
warnings (an_error message file line timestamp ∷ xs) = warnings xs
warnings (a_warning message file line timestamp ∷ xs) = warnings xs + 1
warnings (an_info message file line timestamp ∷ xs) = warnings xs
warnings (a_debug message file line timestamp ∷ xs) = warnings xs

-- Both counters in the range of `uint32_t`.
abbrev pub IsValid : ErrorHandler → Type 0
IsValid h = (h.error_count < 4294967296) × (h.warning_count < 4294967296)

-- From counters in range, after any sequence of calls each counter is what it was plus the number of
-- calls of its own kind, modulo 2^32.
call_all-counts :
    (xs : List Call) (h : ErrorHandler)
    → IsValid h
    → ((call_all xs h).error_count ≡ u32 (h.error_count + errors xs))
      × ((call_all xs h).warning_count ≡ u32 (h.warning_count + warnings xs))
unfolding call_all call handle_error handle_warning handle_info handle_debug
call_all-counts [] h (v, w) = (omega arith, omega arith)
call_all-counts (an_error message file line timestamp ∷ xs) h (v, w) =
    let (e, n) =
      call_all-counts xs (handle_error message file line timestamp h) (omega arith, omega arith) in
    (omega (arith, e), omega (arith, n))
call_all-counts (a_warning message file line timestamp ∷ xs) h (v, w) =
    let (e, n) =
      call_all-counts xs (handle_warning message file line timestamp h)
        (omega arith, omega arith) in
    (omega (arith, e), omega (arith, n))
call_all-counts (an_info message file line timestamp ∷ xs) h v =
    call_all-counts xs (handle_info message file line timestamp h) v
call_all-counts (a_debug message file line timestamp ∷ xs) h v =
    call_all-counts xs (handle_debug message file line timestamp h) v
