-- ===== src/Lib.antt =====
-- The cloud controller manager for Outscale: how it keeps the load balancers of Kubernetes services,
-- their security groups, tags, listeners, subnets and instances as the services ask for.
--
-- The Go code is in cloud-controller-manager/osc. A handler of a service (`EnsureLoadBalancer`,
-- `UpdateLoadBalancer`, `EnsureLoadBalancerDeleted`, `GetLoadBalancer` in ccm_cloud.go) reads the
-- service's annotations, chooses subnets, makes or finds a security group, makes or updates the load
-- balancer, and registers the instances of the nodes. All of it goes through two clients, `Compute`
-- and `LoadBalancer` (oapi_itf.go).
--
-- A function that may fail gives a `Result` (Base/Effect): a value, an error, or a panic. A function
-- that calls the clients is a function of a state `S` of the outside world, which is kept where a later
-- call fails. The clients are records of such functions (Osc/Clients), and so parameters; a theorem
-- that needs a service that answers takes a record of what it does. Errors of `fmt.Errorf` keep the
-- constant beginning of their text. Logging is left out.
--
-- Files and what they model:
--   Base, Base/*: Go slices, maps, texts, 64-bit decimal numbers, results. Numbers of Go are integers;
--     `parse_int` has the range of 64 bits. Sets of strings (k8s.io/apimachinery) are a parameter,
--     Base/StringSets. Maps keep the order of insertion.
--   Osc: the SDK's data and the clients (oapi_itf.go), with clients for the tests. Osc/Sdk: oapi_sdk.go,
--     the implementation of the first of them over the SDK's own client, which is a parameter.
--   Tags: tags.go, the cluster id and the tags of resources. `wait.ExponentialBackoff` is a parameter.
--     Tags/Filters: the filters and tags of EC2 there.
--   Listener: osc_loadbalancer.go `syncElbListeners`, utils.go `buildListener`, `getPortSets`.
--   Rules: utils.go `ruleExists`, sets_ippermissions.go. The JSON text of a rule is a parameter.
--     Rules/Ec2: utils.go `ipPermissionAWSExists`, the permissions of EC2.
--   Cloud: the struct `Cloud`, as far as it is read.
--   Instances: instances.go, instances_v2.go, the ids of machines in provider ids. `url.Parse` is a
--     parameter; Instances/Url says what is relied on. Nodes: ccm_cloud.go, the machine of a node;
--     Nodes/Addresses, Nodes/Metadata (utils.go, the metadata service), Nodes/Interface (what the
--     manager tells of a node), Nodes/Version2 (instances_v2.go).
--   Cache: instances.go `instanceCache`, osc_loadbalancer.go `findInstancesForELB`. What another
--     goroutine stores while a client is asked is part of the state that the client's call gives.
--   Routes: osc_routes.go. Config: ccm_cloud_config.go, the endpoints. Startup: ccm.go `newCloud`,
--     metadata.go `NewMetadataService`.
--   SecurityGroup: ccm_cloud.go `findSecurityGroup`, `setSecurityGroupIngress`,
--     `addSecurityGroupRules`, `removeSecurityGroupRules`; SecurityGroup/Ensure: `ensureSecurityGroup`,
--     whose loop counts down its 30 attempts; SecurityGroup/Nodes: `getTaggedSecurityGroups`,
--     `updateInstanceSecurityGroupsForLoadBalancer`, utils.go `findSecurityGroupForInstance`.
--   Subnets: ccm_cloud.go `findSubnets`, `findELBSubnets`, the choice of one subnet in
--     `EnsureLoadBalancer`, utils.go `isSubnetPublic`, `findTag`.
--   Backends: osc_loadbalancer.go `ensureLoadBalancerInstances` and the policies.
--   Service: `GetLoadBalancerName`, `getLoadBalancerAdditionalTags`, Service/Health: the health check,
--     Service/Attributes: the attributes of a load balancer from the annotations.
--   Balancer: `describeLoadBalancer`, `addLoadBalancerTags`, `ensureLoadBalancer`.
--   Provision: the checks of `EnsureLoadBalancer`; Provision/Flow: the handlers' calls in order.
--   Deletion: `EnsureLoadBalancerDeleted`. Its loop tests the time limit of 600 seconds after each pass
--     and then pauses 10 seconds. The clock and the pause are parameters; the fuel is 62 passes, the
--     last of which starts 610 seconds after the first where the clock shows the pauses.
--
-- Not modelled: the delays of retries (retry_handler.go), which are floating-point numbers; the start
-- of the program, its registration with Kubernetes and the reading of files; the code that makes the
-- clients of the SDKs, logs calls and counts them; fakes and tests.
-- The package servicehelpers, the informer of nodes, the resolver and the regions of the SDK,
-- `json.Marshal`, `net.ParseIP`, `reflect.DeepEqual` of load balancer attributes and the validation of
-- a health check are parameters.
pub mod Base
pub mod Osc
pub mod Tags
pub mod Listener
pub mod Rules
pub mod Cloud
pub mod Instances
pub mod Nodes
pub mod Cache
pub mod Routes
pub mod Config
pub mod Startup
pub mod SecurityGroup
pub mod Backends
pub mod Subnets
pub mod Service
pub mod Balancer
pub mod Provision
pub mod Deletion
