-- ===== src/Tunnel/Mux/Calls.antt =====
-- internal/tunnel/socks_mux.go: any sequence of calls of the multiplexer's methods.
use reversproxy.Base.{ℕ, ◌≡◌, refl, Bool, List, [], ◌∷◌, Option, none, some, Str}
use reversproxy.Base.Result.{Result, ok, err}
use reversproxy.Tunnel.Mux.{
  Mux, MuxError, read_pipe, new_mux, new_channel, remove, deliver, deliver_ready, close_all,
}
use reversproxy.Tunnel.Mux.Live.{
  IsLive, read_pipe-IsLive, new_mux-IsLive, new_channel-IsLive, remove-IsLive, deliver-IsLive,
  deliver_ready-IsLive, close_all-IsLive,
}

pub data Call : Type 0 where
  opens : Str → Call
  removes : Str → Call
  delivers : Str → List ℕ → Call
  reads : ℕ → ℕ → Call
  readies : Str → Bool → Str → Call
  closes_all : Call

abbrev pub kept : Mux → Result MuxError Mux → Mux
kept m (ok n) = n
kept m (err e) = m

abbrev pub opened : Mux → Result MuxError (ℕ × Mux) → Mux
opened m (ok (p, n)) = n
opened m (err e) = m

abbrev pub read : Mux → Option (List ℕ × Mux) → Mux
read m (some (bytes, n)) = n
read m none = m

-- A read of a channel object is one of the calls. A call that fails leaves the multiplexer as it was.
unfoldable pub apply : Call → Mux → Mux
apply (opens k) m = opened m (new_channel k m)
apply (removes k) m = remove k m
apply (delivers k payload) m = kept m (deliver k payload m)
apply (reads p n) m = read m (read_pipe p n m)
apply (readies k success message) m = kept m (deliver_ready k success message m)
apply closes_all m = close_all m

unfoldable pub run : List Call → Mux → Mux
run [] m = m
run (c ∷ cs) m = run cs (apply c m)

kept-IsLive :
    (m : Mux) (r : Result MuxError Mux)
    → IsLive m
    → ((n : Mux) → r ≡ ok n → IsLive n)
    → IsLive (kept m r)
kept-IsLive m (ok n) v f = f n refl
kept-IsLive m (err e) v f = v

read-IsLive :
    (m : Mux) (r : Option (List ℕ × Mux))
    → IsLive m
    → ((bytes : List ℕ) (n : Mux) → r ≡ some (bytes, n) → IsLive n)
    → IsLive (read m r)
read-IsLive m (some (bytes, n)) v f = f bytes n refl
read-IsLive m none v f = v

opened-IsLive :
    (m : Mux) (r : Result MuxError (ℕ × Mux))
    → IsLive m
    → ((p : ℕ) (n : Mux) → r ≡ ok (p, n) → IsLive n)
    → IsLive (opened m r)
opened-IsLive m (ok (p, n)) v f = f p n refl
opened-IsLive m (err e) v f = v

pub apply-IsLive : (c : Call) (m : Mux) → IsLive m → IsLive (apply c m)
unfolding apply
apply-IsLive (opens k) m v = opened-IsLive m _ v (λ p n e. new_channel-IsLive k p m n e v)
apply-IsLive (removes k) m v = remove-IsLive k m v
apply-IsLive (delivers k payload) m v = kept-IsLive m _ v (λ n e. deliver-IsLive k payload m n e v)
apply-IsLive (reads p n) m v = read-IsLive m _ v (λ bytes o e. read_pipe-IsLive p n bytes m o e v)
apply-IsLive (readies k success message) m v =
    kept-IsLive m _ v (λ n e. deliver_ready-IsLive k success message m n e v)
apply-IsLive closes_all m v = close_all-IsLive m v

run-IsLive : (cs : List Call) (m : Mux) → IsLive m → IsLive (run cs m)
unfolding run
run-IsLive [] m v = v
run-IsLive (c ∷ cs) m v = run-IsLive cs (apply c m) (apply-IsLive c m v)

-- After any sequence of calls on a new multiplexer the registered channels are open, each under
-- one key, the counter of the WaitGroup is their number, and it never was negative.
pub run-new_mux-IsLive : (cs : List Call) → IsLive (run cs new_mux)
run-new_mux-IsLive cs = run-IsLive cs new_mux new_mux-IsLive
