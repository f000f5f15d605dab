-- ===== src/Blocks/Deployments.antt =====
-- Deployments that the check lets pass and that cannot be paid.
use rusk.Prelude.{
  ℕ, ◌+◌, ◌-◌, ◌%◌, ◌^◌, ◌≡◌, ◌≤◌, ◌<◌, refl, ap, ◌∙◌, true, none, some, List, ◌++◌, arith, ltb,
  lt→ltb, unwrap_or,
}
use rusk.Vm.{Bytes}
use rusk.TxBytes.Payloads.{ContractDeploy}
use rusk.TxBytes.Transactions.{Transaction}
use rusk.TxBytes.HashInput.{
  gas_limit_of, gas_price_of, tx_deploy, deploy_charge, strip_off_bytecode, charge_of,
}
use rusk.Blocks.Machine.{Machine, Receipt, answered, failed, returned, Event}
use rusk.Blocks.Execute.{
  executed, Prices, deploy_check, deploy_contract, deploy_if_answered, contract_deploy, consume_all,
  refunded, settle_gas, after_spending, execute,
}
use rusk.Blocks.Charges.{KeepsGas}

module _ {Skeleton Session F X : Type 0} (m : Machine Skeleton Session F X) (prices : Prices)
    (tx : Transaction Skeleton) (d : ContractDeploy) (deploys : tx_deploy tx ≡ some d) where
  check_passes :
      prices.min_deploy_gas_price ≤ gas_price_of tx
      → charge_of d prices.gas_per_deploy_byte prices.min_deploy_gas_price ≤ gas_limit_of tx
      → deploy_check m tx prices ≡ none
  unfolding deploy_check deploy_charge
  check_passes price limit = rw (deploys, deploy_check) (ground arith)

  charge_is_least :
      charge_of d prices.gas_per_deploy_byte prices.min_deploy_gas_price ≤ gas_limit_of tx
      → gas_limit_of tx < prices.min_deploy_points
      → deploy_charge tx prices.gas_per_deploy_byte prices.min_deploy_points
        ≡ prices.min_deploy_points
  unfolding deploy_charge charge_of
  charge_is_least limit little = rw (deploys, deploy_charge) (ground arith)

  short_of_gas :
      (s : Session) (r : Receipt F) (bytes : Bytes)
      → r.answer ≡ answered bytes
      → r.gas_spent ≤ gas_limit_of tx
      → gas_limit_of tx < 2 ^ 64
      → gas_limit_of tx + prices.min_deploy_points < 2 ^ 64
      → charge_of d prices.gas_per_deploy_byte prices.min_deploy_gas_price ≤ gas_limit_of tx
      → gas_limit_of tx < prices.min_deploy_points
      → contract_deploy m s tx prices r ≡ (s, record r { answer = failed m.out_of_gas })
  unfolding contract_deploy deploy_if_answered deploy_contract
  short_of_gas s r bytes e spent fits sum limit little =
      let charge = charge_is_least limit little in
      let short : ltb ((gas_limit_of tx + 2 ^ 64 - r.gas_spent) % 2 ^ 64)
            ((r.gas_spent + prices.min_deploy_points) % 2 ^ 64)
          ≡ true =
        lt→ltb _ _ (omega arith) in
      rw (deploys, contract_deploy) (rw (e, deploy_if_answered) (rw (charge, short) refl))

  -- Where a call of the crate spends no more gas than it is given: a deployment whose gas limit covers
  -- the charge that the check computes but not the lowest points for a deployment is not discarded, although
  -- its limit is below its charge. If its call succeeds, it fails for lack of gas and is charged the
  -- whole limit, by the refund that follows.
  pub cheap_deployment_burns :
      KeepsGas m
      → (s s' s'' : Session) (r : Receipt F) (bytes : Bytes) (events : List Event)
      → prices.min_deploy_gas_price ≤ gas_price_of tx
      → charge_of d prices.gas_per_deploy_byte prices.min_deploy_gas_price ≤ gas_limit_of tx
      → gas_limit_of tx < prices.min_deploy_points
      → gas_limit_of tx + prices.min_deploy_points < 2 ^ 64
      → m.spend_and_execute s (unwrap_or (strip_off_bytecode tx) tx) (gas_limit_of tx)
        ≡ (s', returned r)
      → r.answer ≡ answered bytes
      → m.refund s' (gas_limit_of tx) ≡ (s'', returned events)
      → (gas_limit_of tx < deploy_charge tx prices.gas_per_deploy_byte prices.min_deploy_points)
        × ((r' : Receipt F) × (execute m prices s tx ≡ (s'', executed r'))
            × (r'.answer ≡ failed m.out_of_gas)
            × (r'.gas_spent ≡ gas_limit_of tx))
  unfolding execute after_spending settle_gas consume_all refunded
  cheap_deployment_burns laws s s' s'' r bytes events price limit little sum spends e refunds =
      let kept =
        laws.keeps_gas s (unwrap_or (strip_off_bytecode tx) tx) (gas_limit_of tx) s' r spends in
      let unpaid = short_of_gas s' r bytes e kept.1 (omega arith) sum limit little in
      let whole : Receipt F = record r { gas_spent = r.gas_limit; answer = failed m.out_of_gas } in
      let checked : execute m prices s tx
          ≡ after_spending m tx prices
              (m.spend_and_execute s (unwrap_or (strip_off_bytecode tx) tx) (gas_limit_of tx)) =
        rw (check_passes price limit, execute) refl in
      (
        omega (arith, charge_is_least limit little),
        (
          record r {
            gas_spent = r.gas_limit;
            events = r.events ++ events;
            answer = failed m.out_of_gas;
          },
          checked
              ∙ (ap (after_spending m tx prices) spends
                  ∙ (ap (settle_gas m) unpaid
                      ∙ (ap (λ (g : ℕ). refunded m whole (m.refund s' g)) kept.0
                          ∙ ap (refunded m whole) refunds))),
          refl,
          kept.0,
        ),
      )
