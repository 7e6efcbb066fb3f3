-- ===== src/Discovery/Balance/Ops.antt =====
-- The basic steps of src/bridge.cpp on the heap, the map and the tasks, and the balance of owners.
use hanfun_io_tivity.Prelude.{
  ℕ, ◌+◌, ◌≡◌, refl, List, [], ◌∷◌, ◌++◌, Option, some, none, if◌then◌else◌, ◌==◌, inl, inr, arith,
  Bool-cases, ◌∙◌,
}
use hanfun_io_tivity.Prelude.Bytes.{Bytes}
use hanfun_io_tivity.Prelude.Assoc.{
  count, lookup, insert, erase, values, keys-insert_old, keys-insert_new, keys-erase, lookup-none,
  lookup-some, values-insert_new, values-erase,
}
use hanfun_io_tivity.Stack.{DevAddr}
use hanfun_io_tivity.Discovery.{
  Context, Callback, World, Presence, Bridge, Task, discover, rd_publish,
}
use hanfun_io_tivity.Discovery.Ops.{
  read_context, write_context, new_context, delete_context, erase_discovered, continue_discovery,
  push_task, push_presence, destroy_piid,
}
use hanfun_io_tivity.Discovery.Callbacks.{kept}
use hanfun_io_tivity.Discovery.Balance.{task_contexts, others, Balanced, Safe}

pub task_contexts-append :
    (ts us : List Task) (x : ℕ)
    → count x (task_contexts (ts ++ us)) ≡ count x (task_contexts ts) + count x (task_contexts us)
unfolding task_contexts count
task_contexts-append [] us x = omega arith
task_contexts-append (discover tick piid a ∷ ts) us x = omega (arith, task_contexts-append ts us x)
task_contexts-append (rd_publish tick ∷ ts) us x = task_contexts-append ts us x

module _ {A : Type 0} where
  lookup-insert_other :
      (h k : ℕ) (v : A) (m : List (ℕ × A)) → ¬ (h ≡ k) → lookup k (insert h v m) ≡ lookup k m
  unfolding lookup insert
  lookup-insert_other h k v [] n = ground arith
  lookup-insert_other h k v ((j, u) ∷ m) n = ground (arith, lookup-insert_other h k v m)

  lookup-erase-none : (h k : ℕ) (m : List (ℕ × A)) → lookup k m ≡ none → lookup k (erase h m) ≡ none
  unfolding lookup erase
  lookup-erase-none h k [] n = refl
  lookup-erase-none h k ((j, u) ∷ m) n = ground (arith, lookup-erase-none h k m)

  erase-insert_other :
      (h k : ℕ) (v : A) (m : List (ℕ × A))
      → ¬ (h ≡ k)
      → erase h (insert k v m) ≡ insert k v (erase h m)
  unfolding erase insert
  erase-insert_other h k v [] n = ground arith
  erase-insert_other h k v ((j, u) ∷ m) n = ground (arith, erase-insert_other h k v m)

-- The local pointer points to a living context.
Balanced-alive :
    (a : ℕ) (p : Option ℕ) (b : Bridge)
    → Balanced (some a) p b
    → (c : Context) × (lookup a b.contexts ≡ some c)
Balanced-alive a p b i = lookup-some a b.contexts (ground (arith, i.owned a))

-- `b'` differs from `b` in what no context is owned by.
pub Balanced-same :
    (l p : Option ℕ) (b b' : Bridge)
    → b'.contexts ≡ b.contexts
    → b'.discovered ≡ b.discovered
    → b'.tasks ≡ b.tasks
    → b'.next_context ≡ b.next_context
    → b'.next_handle ≡ b.next_handle
    → Balanced l p b
    → Balanced l p b'
Balanced-same l p b b' e f g n h i = record {
  owned = λ x. rw (e, f, g) (i.owned x);
  once = λ x. rw e (i.once x);
  fresh_contexts = λ x q. rw e (i.fresh_contexts x (rw n at q));
  fresh_handles = λ x q. rw f (i.fresh_handles x (rw h at q));
  pending_old = λ x q. rw h (i.pending_old x q);
}

others-insert :
    (p : Option ℕ) (b : Bridge) (a : ℕ)
    → Balanced (some a) p b
    → (x : ℕ)
    → count x (values (others p (insert b.next_handle a b.discovered)))
      ≡ count x (values (others p b.discovered)) + (if a == x then 1 else 0)
others-insert none b a i x =
    values-insert_new x b.next_handle a b.discovered (i.fresh_handles b.next_handle (omega arith))
others-insert (some h) b a i x =
    rw
      (erase-insert_other h b.next_handle a b.discovered (λ e. omega (arith, i.pending_old h refl)))
      (values-insert_new x b.next_handle a (erase h b.discovered) (
        lookup-erase-none h b.next_handle b.discovered
          (i.fresh_handles b.next_handle (omega arith))))

module _ (p : Option ℕ) (b : Bridge) where
  pub read_context_lem :
      (a : ℕ) → Balanced (some a) p b → Safe (λ c. Balanced (some a) p) (read_context a b)
  unfolding read_context
  read_context_lem a i = let (c, e) = Balanced-alive a p b i in rw (e, Safe) i

  pub write_context_lem :
      (a : ℕ) (c : Context)
      → Balanced (some a) p b
      → Safe (λ _. Balanced (some a) p) (write_context a c b)
  unfolding write_context
  write_context_lem a c i =
      let (old, e) = Balanced-alive a p b i in
      let same = λ (x : ℕ). keys-insert_old x a c old b.contexts e in
      rw (e, Safe)
        (record {
          owned = λ x. omega (arith, i.owned x, same x);
          once = λ x. omega (arith, i.once x, same x);
          fresh_contexts = λ x q. omega (arith, i.fresh_contexts x q, same x);
          fresh_handles = i.fresh_handles;
          pending_old = i.pending_old;
        })

  pub new_context_lem :
      (c : Context) → Balanced none p b → Safe (λ a. Balanced (some a) p) (new_context c b)
  unfolding new_context
  new_context_lem c i =
      let n = b.next_context in
      let none_n = i.fresh_contexts n (omega arith) in
      let more = λ (x : ℕ). keys-insert_new x n c b.contexts (lookup-none n b.contexts none_n) in
      record {
        owned = λ x. omega (arith, i.owned x, more x);
        once = λ x. ground (arith, i.once x, more x);
        fresh_contexts = λ x q. ground (arith, i.fresh_contexts x (omega arith), more x);
        fresh_handles = i.fresh_handles;
        pending_old = i.pending_old;
      }

  pub delete_context_lem :
      (a : Option ℕ) → Balanced a p b → Safe (λ _. Balanced none p) (delete_context a b)
  unfolding delete_context
  delete_context_lem none i = i
  delete_context_lem (some a) i =
      let (c, e) = Balanced-alive a p b i in
      let less = λ (x : ℕ). keys-erase x a c b.contexts e in
      rw (e, Safe)
        (record {
          owned = λ x. omega (arith, i.owned x, less x);
          once = λ x. omega (arith, i.once x, less x);
          fresh_contexts = λ x q. omega (arith, i.fresh_contexts x q, less x);
          fresh_handles = i.fresh_handles;
          pending_old = i.pending_old;
        })

  pub push_task_lem :
      (a tick : ℕ) (piid : Bytes)
      → Balanced (some a) p b
      → Safe (λ _. Balanced none p) (push_task (discover tick piid a) b)
  unfolding push_task task_contexts count
  push_task_lem a tick piid i =
      let more = λ (x : ℕ). task_contexts-append b.tasks (discover tick piid a ∷ []) x in
      record {
        owned = λ x. omega (arith, i.owned x, more x);
        once = i.once;
        fresh_contexts = i.fresh_contexts;
        fresh_handles = i.fresh_handles;
        pending_old = i.pending_old;
      }

  pub push_presence_lem :
      (l : Option ℕ) (q : Presence) → Balanced l p b → Safe (λ _. Balanced l p) (push_presence q b)
  unfolding push_presence
  push_presence_lem l q i = Balanced-same l p b _ refl refl refl refl refl i

  pub destroy_piid_lem :
      (l : Option ℕ) (piid : Bytes)
      → Balanced l p b
      → Safe (λ _. Balanced l p) (destroy_piid piid b)
  unfolding destroy_piid
  destroy_piid_lem l piid i = Balanced-same l p b _ refl refl refl refl refl i

  pub continue_discovery_lem :
      (w : World) (a : ℕ) (uri : Bytes) (addrs : List DevAddr) (cb : Callback)
      → Balanced (some a) p b
      → Safe (λ taken. Balanced (kept a taken) p) (continue_discovery w a uri addrs cb b)
  unfolding continue_discovery
  continue_discovery_lem w a uri addrs cb i = elim (Bool-cases (w.accepts b.next_handle)) [
    | inl e ↦ rw e (record {
      owned = λ x. omega (arith, i.owned x, others-insert p b a i x);
      once = i.once;
      fresh_contexts = i.fresh_contexts;
      fresh_handles = λ h q.
          lookup-insert_other b.next_handle h a b.discovered (λ e'. omega arith)
          ∙ i.fresh_handles h (omega arith);
      pending_old = λ h q. omega (arith, i.pending_old h q);
    })
    | inr e ↦ rw e (record {
      owned = i.owned;
      once = i.once;
      fresh_contexts = i.fresh_contexts;
      fresh_handles = λ h q. i.fresh_handles h (omega arith);
      pending_old = λ h q. omega (arith, i.pending_old h q);
    })
  ]

-- The end of a callback erases the entry that it was called for.
pub erase_discovered_lem :
    (l : Option ℕ) (h : ℕ) (b : Bridge)
    → Balanced l (some h) b
    → Safe (λ _. Balanced l none) (erase_discovered h b)
unfolding erase_discovered
erase_discovered_lem l h b i = record {
  owned = i.owned;
  once = i.once;
  fresh_contexts = i.fresh_contexts;
  fresh_handles = λ k q. lookup-erase-none h k b.discovered (i.fresh_handles k q);
  pending_old = λ k e. cc;
}

-- A callback that finds its context is from then on the context's owner.
pub Balanced-start :
    (a h : ℕ) (b : Bridge)
    → lookup h b.discovered ≡ some a
    → Balanced none none b
    → Balanced (some a) (some h) b
unfolding lookup
Balanced-start a h b e i = record {
  owned = λ x. omega (arith, i.owned x, values-erase x h a b.discovered e);
  once = i.once;
  fresh_contexts = i.fresh_contexts;
  fresh_handles = i.fresh_handles;
  pending_old = λ k q. ground (arith, i.fresh_handles h);
}
