-- ===== src/Controllers/Contracts.antt =====
-- internal/controllers/contracts/multi.go, token.go: the part of the generated bindings that the
-- E-mail check calls, over the packages abi and bind of go-ethereum.
use users_api.Base.{ℕ, String, Option, none, some, List, [], ◌∷◌, ◌≡◌, refl, ap, ◌∙◌}
use users_api.Go.Result.{Result, ok, err, panic, Attempt, done, failed, attempt}
use users_api.Go.Null.{Address}
use users_api.Controllers.Types.{BalanceOf, Chain}

-- The packages abi and bind, and the two texts of `MetaData.ABI`.
pub record Bind : Type 1 where
  pub Backend : Type 0
  pub Abi : Type 0
  pub BoundContract : Type 0
  pub Output : Type 0
  pub multi_privilege_abi : String
  pub token_abi : String
  pub parse_abi : String → Attempt Abi
  pub new_bound_contract : Address → Abi → Backend → BoundContract
  -- `Call` of a method with an address
  pub call : BoundContract → String → Address → Attempt (List Output)
  -- `*abi.ConvertType(out, new(*big.Int)).(**big.Int)`, none where it panics
  pub as_big_int : Output → Option ℕ

module _ (B : Bind) where
  abbrev bound_to : Address → B.Backend → Attempt B.Abi → Attempt B.BoundContract
  bound_to address backend (done parsed) = done (B.new_bound_contract address parsed backend)
  bound_to address backend (failed e) = failed e

  -- `bindMultiPrivilege` and `bindToken`
  unfoldable pub bind_contract : String → Address → B.Backend → Attempt B.BoundContract
  bind_contract text address backend = bound_to address backend (B.parse_abi text)

  -- `NewMultiPrivilege` and `NewToken`; `none` is the nil that is returned beside an error, which the
  -- E-mail check drops.
  abbrev or_nil : Attempt B.BoundContract → Option B.BoundContract
  or_nil (done contract) = some contract
  or_nil (failed e) = none

  unfoldable pub new_multi_privilege : Address → B.Backend → Option B.BoundContract
  unfolding bind_contract
  new_multi_privilege address backend = or_nil (bind_contract B.multi_privilege_abi address backend)

  unfoldable pub new_token : Address → B.Backend → Option B.BoundContract
  unfolding bind_contract
  new_token address backend = or_nil (bind_contract B.token_abi address backend)

  abbrev converted : Option ℕ → Result ℕ
  converted none = panic "interface conversion"
  converted (some n) = ok n

  abbrev first_output : Attempt (List B.Output) → Result ℕ
  first_output (failed e) = err e
  first_output (done []) = panic "index out of range"
  first_output (done (out ∷ rest)) = converted (B.as_big_int out)

  -- `BalanceOf`, of either contract
  unfoldable pub balance_of : Option B.BoundContract → Address → Result ℕ
  balance_of none owner = panic "nil pointer"
  balance_of (some contract) owner = first_output (B.call contract "balanceOf" owner)

  -- The outputs of `balanceOf` by the two texts: one number.
  abbrev IsOneNumber : Attempt (List B.Output) → Type 0
  IsOneNumber (failed e) = Unit {0}
  IsOneNumber (done outs) =
      (out : B.Output) × (n : ℕ) × (outs ≡ out ∷ []) × (B.as_big_int out ≡ some n)

  -- The two texts can be read, and a call that returns has the outputs that they give it.
  pub record IsAbi : Type 0 where
    pub multi_privilege_parsed : (a : B.Abi) × (B.parse_abi B.multi_privilege_abi ≡ done a)
    pub token_parsed : (a : B.Abi) × (B.parse_abi B.token_abi ≡ done a)
    pub one_number :
        (contract : B.BoundContract) (owner : Address)
        → IsOneNumber (B.call contract "balanceOf" owner)

  answer : (a : Attempt (List B.Output)) → IsOneNumber a → Attempt ℕ
  answer (failed e) h = failed e
  answer (done outs) h = done h.1

  answer_lem :
      (a : Attempt (List B.Output)) (h : IsOneNumber a) → first_output a ≡ attempt (answer a h)
  unfolding answer
  answer_lem (failed e) h = refl
  answer_lem (done outs) h = rw (h.2, h.3) refl

  module _ (lawful : IsAbi) (backend : B.Backend) where
    asked : B.Abi → Address → BalanceOf
    asked parsed address owner =
        let contract = B.new_bound_contract address parsed backend in
        answer (B.call contract "balanceOf" owner) (lawful.one_number contract owner)

    -- The contracts over a client, as the E-mail check sees them.
    pub bound_chain : Chain
    bound_chain = record {
      multi_privilege = asked lawful.multi_privilege_parsed.0;
      token = asked lawful.token_parsed.0;
    }

    asked_lem :
        (parsed : B.Abi) (address owner : Address) (text : String)
        → B.parse_abi text ≡ done parsed
        → balance_of (or_nil (bind_contract text address backend)) owner
          ≡ attempt (asked parsed address owner)
    unfolding balance_of bind_contract asked
    asked_lem parsed address owner text e =
        ap (λ (a : Attempt B.Abi). balance_of (or_nil (bound_to address backend a)) owner) e
        ∙ answer_lem (B.call (B.new_bound_contract address parsed backend) "balanceOf" owner)
            (lawful.one_number (B.new_bound_contract address parsed backend) owner)

    -- The bindings do what `Chain` says: no constructor fails, so that dropping its error does no
    -- harm, and no balance ends in a panic.
    balance_of-bound :
        (address owner : Address)
        → (balance_of (new_multi_privilege address backend) owner
            ≡ attempt (bound_chain.multi_privilege address owner))
          × (balance_of (new_token address backend) owner
              ≡ attempt (bound_chain.token address owner))
    unfolding new_multi_privilege new_token bound_chain
    balance_of-bound address owner = (
      asked_lem lawful.multi_privilege_parsed.0 address owner B.multi_privilege_abi
          lawful.multi_privilege_parsed.1,
      asked_lem lawful.token_parsed.0 address owner B.token_abi lawful.token_parsed.1,
    )
