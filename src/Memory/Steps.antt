-- ===== src/Memory/Steps.antt =====
-- What the statements of a function that creates an endpoint do to the heap blocks, given what the
-- rest of the function does.
use https_github_com_nightdu.Base.{
  ℕ, if◌then◌else◌, ◌∷◌, ◌≡◌, refl, Bool, true, false, String, Option, none, some, ◌++◌, inl, inr,
  Bool-cases, Option-cases, ◌==◌,
}
use https_github_com_nightdu.Platform.{
  Ptr, Text, RmwRet, is_ok, QosProfile, Endpoint, Env, World, Outcome, done, fault, Run, Body,
  ◌>>=◌, finish, return_if, fail_if, check_argument_for_null, call, pure,
}
use https_github_com_nightdu.Typesupport.{
  TypeSupport, Handle, Members, size_of, rmw_get_serialized_message_size,
}
use https_github_com_nightdu.Publisher.Create.{
  check_full_topic_name, choose_allocator, size_or_zero,
}
use https_github_com_nightdu.Memory.{allocations, releases, rings, blocks}

-- A function handed out the blocks of an endpoint and gave none back, and created a ring buffer
-- allocator for it exactly if none was given.
abbrev pub Allocates : Endpoint → World → World → Type 0
Allocates e w w' =
    (allocations w'.calls ≡ blocks e ++ allocations w.calls)
    × (releases w'.calls ≡ releases w.calls)
    × (rings w'.calls ≡ (if e.payload == 0 then e.info.alloc ∷ rings w.calls else rings w.calls))

-- Two worlds between which no block was handed out or given back, and no gid generated.
abbrev pub Quiet : World → World → Type 0
Quiet w w' =
    (allocations w'.calls ≡ allocations w.calls)
    × (releases w'.calls ≡ releases w.calls)
    × (w'.dummy_guid ≡ w.dummy_guid)

abbrev size_in : Option Members → ℕ
size_in none = 0
size_in (some t) = size_of t

-- The size of a message of a type, by its table for C, or for C++ if there is none for C.
abbrev pub wire_size : Option Handle → Option Handle → ℕ
wire_size (some ts) cpp = size_in ts.table
wire_size none (some ts) = size_in ts.table
wire_size none none = 0

-- A function failed in a world of which `F` holds, or returned an endpoint of which `P` does.
abbrev pub Made :
    (Endpoint → World → Type 0) → (World → Type 0) → Outcome (Option Endpoint) → Type 0
Made P F (done none w) = F w
Made P F (done (some e) w) = P e w
Made P F fault = Unit {0}

pub Made-map :
    {P Q : Endpoint → World → Type 0} (F : World → Type 0) (out : Outcome (Option Endpoint))
    → ((e : Endpoint) (w : World) → P e w → Q e w)
    → Made P F out
    → Made Q F out
Made-map F (done none w) f h = h
Made-map F (done (some e) w) f h = f e w h
Made-map F fault f h = h

-- The same of the rest of a function.
abbrev Makes :
    (Endpoint → World → Type 0)
    → (World → Type 0)
    → Run (Option Endpoint) (Option Endpoint)
    → Type 0
Makes P F out = Made P F (finish out)

-- `F` stays true while no block comes or goes.
module _ (P : Endpoint → World → Type 0) (F : World → Type 0)
    (stays : (w w' : World) → Quiet w w' → F w → F w') where
  pub check_argument-Makes :
      {A : Type 0} (name : String) (x : Option A) (k : A → Body (Option Endpoint) (Option Endpoint))
      (w : World)
      → F w
      → ((a : A) → Makes P F (k a w))
      → Makes P F ((check_argument_for_null name x none >>= k) w)
  check_argument-Makes name none k w f h = stays w _ (refl, refl, refl) f
  check_argument-Makes name (some a) k w f h = h a

  pub return_if-Makes :
      (b : Bool) (k : Unit {0} → Body (Option Endpoint) (Option Endpoint)) (w : World)
      → F w
      → Makes P F (k tt w)
      → Makes P F ((return_if b none >>= k) w)
  return_if-Makes true k w f h = f
  return_if-Makes false k w f h = h

  pub fail_if-Makes :
      (b : Bool) (message : String) (k : Unit {0} → Body (Option Endpoint) (Option Endpoint))
      (w : World)
      → F w
      → Makes P F (k tt w)
      → Makes P F ((fail_if b message none >>= k) w)
  fail_if-Makes true message k w f h = stays w _ (refl, refl, refl) f
  fail_if-Makes false message k w f h = h

  -- The end of the function.
  pub pure-Makes :
      (b : Bool) (e : Endpoint) (w : World)
      → F w
      → (b ≡ false → P e w)
      → Makes P F ((return_if b none >>= λ _. pure (some e)) w)
  pure-Makes true e w f h = f
  pure-Makes false e w f h = h refl

  module _ (env : Env) where
    pub check_full_topic_name-Makes :
        (qos : QosProfile) (topic : Text) (k : Unit {0} → Body (Option Endpoint) (Option Endpoint))
        (w : World)
        → F w
        → Makes P F (k tt w)
        → Makes P F ((check_full_topic_name env qos topic none >>= k) w)
    unfolding check_full_topic_name
    check_full_topic_name-Makes qos topic k w f h =
        elim (Bool-cases qos.avoid_ros_namespace_conventions) [
          | inl free ↦ rw free h
          | inr checked ↦ elim (Bool-cases (is_ok (env.validate_full_topic_name topic).0)) [
            | inr bad ↦ rw (checked, bad) f
            | inl fine ↦ elim (Bool-cases (env.validate_full_topic_name topic).1) [
              | inr bad ↦ rw (checked, fine, bad) (stays w _ (refl, refl, refl) f)
              | inl good ↦ rw (checked, fine, good) h
            ]
          ]
        ]

    pub choose_allocator-Makes :
        (payload : Ptr) (size depth : ℕ) (k : Ptr → Body (Option Endpoint) (Option Endpoint))
        (w : World)
        → ((p : Ptr) (w' : World)
            → Quiet w w'
            → rings w'.calls ≡ (if payload == 0 then p ∷ rings w.calls else rings w.calls)
            → Makes P F (k p w'))
        → Makes P F ((choose_allocator env payload size depth >>= k) w)
    unfolding choose_allocator
    choose_allocator-Makes payload size depth k w h = elim (Bool-cases (payload == 0)) [
      | inl missing ↦ rw missing (h _ _ (refl, refl, refl) (rw missing refl))
      | inr given ↦ rw given (h payload w (refl, refl, refl) (rw given refl))
    ]

  sized :
      (env_c env_cpp : Option Handle)
      (k : RmwRet × Option ℕ → Body (Option Endpoint) (Option Endpoint)) (w : World)
      → ((r : RmwRet × Option ℕ) (w' : World)
          → Quiet w w'
          → rings w'.calls ≡ rings w.calls
          → size_or_zero r.1 ≡ wire_size env_c env_cpp
          → Makes P F (k r w'))
      → let support : TypeSupport = record {
        introspection_c = env_c;
        introspection_cpp = env_cpp;
      } in
        Makes P F
          ((call (rmw_get_serialized_message_size (some support) (some tt) (some 0)) >>= k) w)
  unfolding rmw_get_serialized_message_size
  sized (some ts) cpp k w h = elim (Option-cases ts.table) [
    | inl missing ↦ rw missing (h _ _ (refl, refl, refl) refl (rw missing refl))
    | inr (t, given) ↦ rw given (h _ _ (refl, refl, refl) refl (rw given refl))
  ]
  sized none (some ts) k w h = elim (Option-cases ts.table) [
    | inl missing ↦ rw missing (h _ _ (refl, refl, refl) refl (rw missing refl))
    | inr (t, given) ↦ rw given (h _ _ (refl, refl, refl) refl (rw given refl))
  ]
  sized none none k w h = h _ _ (refl, refl, refl) refl refl

  pub sized-Makes :
      (support : TypeSupport) (k : RmwRet × Option ℕ → Body (Option Endpoint) (Option Endpoint))
      (w : World)
      → ((r : RmwRet × Option ℕ) (w' : World)
          → Quiet w w'
          → rings w'.calls ≡ rings w.calls
          → size_or_zero r.1 ≡ wire_size support.introspection_c support.introspection_cpp
          → Makes P F (k r w'))
      → Makes P F
          ((call (rmw_get_serialized_message_size (some support) (some tt) (some 0)) >>= k) w)
  sized-Makes support k w h = sized support.introspection_c support.introspection_cpp k w h
