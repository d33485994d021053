-- ===== src/Lib.antt =====
-- AgentRoll: a Kubernetes controller that rolls out new versions of AI agents as Argo Rollouts,
-- measures their quality, and tests new prompts and tools on canaries.
--
-- Parts, with the code that each models and the way they meet:
--   Prelude, Prelude/*       native numbers, texts, lists and dictionaries that all parts share
--   Int                      signed integers, and the int32 counters of the status
--   Float, Float/Milli       the operations of float64 as an interface, with one carrier for tests
--   Api, Api/*               api/v1alpha1/*_types.go: the custom resources as records
--   Kube, Kube/*             the objects of other APIs; the calls that the controller makes (`Call`),
--                            their answers (`Env`) and a pass of the controller (`Exec`)
--   Kube/Exec/Sends          rules for the calls that a program can make
--   Kube/Exec/Keeps, Atomic  rules for what a program does to the agent in memory
--   History                  the ring buffers of the status (append* in internal/controller/*.go)
--   Stats                    the t-test of internal/controller/prompt_experiment.go
--   Scorecard                internal/controller/optimization_scorecard.go
--   Experiment               prompt_experiment.go and tool_experiment.go of internal/controller:
--                            reconcilePromptExperiment is `reconcile_prompt_experiment`, and so on
--   Dependencies             checkAgentDependencies and reconcileToolDependencies of
--                            internal/controller/agentdeployment_controller.go
--   Rollout                  translateSteps, buildArgoStrategy, buildPodSpec, the versions, the
--                            analysis templates, reconcileRollout, reconcileService,
--                            reconcileServiceAccount, reconcileScaledObject and
--                            reconcileOTelConfig of the same file
--   Status                   updateStatus, setStatusConditions and emitPhaseEvent of the same file
--   Webhook                  api/v1alpha1/agentdeployment_webhook.go
--   Memory                   memory_lifecycle.go and memory_backend.go of internal/controller
--   Deletion                 handleDeletion of agentdeployment_controller.go
--   Langfuse                 readSecretKey and the requests that the calls of Langfuse share
--   Evaluation               evaluation.go, tool_check_template.go and memory_check_template.go of
--                            internal/controller
--   Evolution                evolution.go and dspy_optimizer.go of internal/controller
--   Reconcile                Reconcile of agentdeployment_controller.go, which calls all the parts
--   Reconcile/Circle         passes over several agents, on a store of the agents by their names
--   Reconcile/Watch          SetupWithManager and promptVariantToAgentRequests: what wakes Reconcile
--   Startup                  cmd/main.go: the flags, the manager's options and the calls up to its start
--   Tests                    a sample cluster, on which the theorems are applied
--
-- State. A pass works on the AgentDeployment in memory; `World` holds it with the events recorded and
-- the calls made, newest first. A call to the API server is logged whatever its answer, and the
-- answers (`Env`) are functions of all the calls before, so a theorem about every `Env` covers
-- concurrent writers, lost writes and refused calls. An error ends the program that raised it, and
-- the state at that point is kept, as in Go. The clock is read once per pass.
--
-- Bounds. Counters of 32 bits are signed and wrap around to -2^31 (`inc32`), and the interval of the
-- snapshots is multiplied in 64 bits, as a time.Duration is. Sample counts, ports and times are natural
-- numbers. The continued fraction of the t-test runs for its 200 rounds, by recursion on the rounds
-- left; no other loop needs fuel but the digits of a number (`decimal`), where a number has at most as
-- many digits as itself and one more.
--
-- Parameters. The API server, the clock, the semver library and SHA-256 are fields of `Env`, and so are
-- the HTTP client and the decoders and formats of encoding/json, encoding/base64, net/url and time
-- (`Codec`). float64 is an interface without laws. apimeta.SetStatusCondition is an argument, with what
-- it documents as a hypothesis; so is the error text of semver.NewConstraint in the webhook. A write
-- leaves the object in memory as it was, but for the Patch of the agent: its answer is decoded into the
-- agent in memory, as `Env.patched` says.
--
-- Not modelled: logging and timeouts; the metadata of objects beyond the fields that are read; the
-- orders in which Go visits a map and in which sort.Slice leaves runs of one time; case folding beyond
-- ASCII; the schemes and the logger of cmd/main.go, and the generated code. What controller-runtime makes
-- of the watches is its own: a change wakes Reconcile with the requests that Watch states.
pub mod Prelude
pub mod Float
pub mod Api
pub mod Kube
pub mod History
pub mod Stats
pub mod Scorecard
pub mod Experiment
pub mod Dependencies
pub mod Rollout
pub mod Status
pub mod Webhook
pub mod Memory
pub mod Deletion
pub mod Tests
pub mod Langfuse
pub mod Evaluation
pub mod Evolution
pub mod Reconcile
pub mod Startup
pub mod Int
