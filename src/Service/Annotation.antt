-- ===== src/Service/Annotation.antt =====
-- The annotations of cloud-controller-manager/osc/ccm_const.go that the code reads.
use cloud_provider_osc.Base.Str.{Str, codes}

abbrev pub additional_tags : Str
additional_tags = codes "service.beta.kubernetes.io/aws-load-balancer-additional-resource-tags"

abbrev pub internal : Str
internal = codes "service.beta.kubernetes.io/aws-load-balancer-internal"

abbrev pub proxy_protocol : Str
proxy_protocol = codes "service.beta.kubernetes.io/aws-load-balancer-proxy-protocol"

abbrev pub access_log_emit_interval : Str
access_log_emit_interval =
    codes "service.beta.kubernetes.io/aws-load-balancer-access-log-emit-interval"

abbrev pub access_log_enabled : Str
access_log_enabled = codes "service.beta.kubernetes.io/aws-load-balancer-access-log-enabled"

abbrev pub access_log_s3_bucket_name : Str
access_log_s3_bucket_name =
    codes "service.beta.kubernetes.io/aws-load-balancer-access-log-s3-bucket-name"

abbrev pub access_log_s3_bucket_prefix : Str
access_log_s3_bucket_prefix =
    codes "service.beta.kubernetes.io/aws-load-balancer-access-log-s3-bucket-prefix"

abbrev pub connection_draining_enabled : Str
connection_draining_enabled =
    codes "service.beta.kubernetes.io/aws-load-balancer-connection-draining-enabled"

abbrev pub connection_draining_timeout : Str
connection_draining_timeout =
    codes "service.beta.kubernetes.io/aws-load-balancer-connection-draining-timeout"

abbrev pub connection_idle_timeout : Str
connection_idle_timeout =
    codes "service.beta.kubernetes.io/aws-load-balancer-connection-idle-timeout"

abbrev pub name_length : Str
name_length = codes "service.beta.kubernetes.io/osc-load-balancer-name-length"

abbrev pub name : Str
name = codes "service.beta.kubernetes.io/osc-load-balancer-name"

abbrev pub healthy_threshold : Str
healthy_threshold =
    codes "service.beta.kubernetes.io/aws-load-balancer-healthcheck-healthy-threshold"

abbrev pub unhealthy_threshold : Str
unhealthy_threshold =
    codes "service.beta.kubernetes.io/aws-load-balancer-healthcheck-unhealthy-threshold"

abbrev pub timeout : Str
timeout = codes "service.beta.kubernetes.io/aws-load-balancer-healthcheck-timeout"

abbrev pub interval : Str
interval = codes "service.beta.kubernetes.io/aws-load-balancer-healthcheck-interval"

abbrev pub extra_security_groups : Str
extra_security_groups = codes "service.beta.kubernetes.io/aws-load-balancer-extra-security-groups"

abbrev pub security_groups : Str
security_groups = codes "service.beta.kubernetes.io/aws-load-balancer-security-groups"

abbrev pub ssl_ports : Str
ssl_ports = codes "service.beta.kubernetes.io/aws-load-balancer-ssl-ports"

abbrev pub ssl_negotiation_policy : Str
ssl_negotiation_policy = codes "service.beta.kubernetes.io/aws-load-balancer-ssl-negotiation-policy"

abbrev pub be_protocol : Str
be_protocol = codes "service.beta.kubernetes.io/aws-load-balancer-backend-protocol"

abbrev pub subnet_id : Str
subnet_id = codes "service.beta.kubernetes.io/osc-load-balancer-subnet-id"
